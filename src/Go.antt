-- ===== src/Go.antt =====
-- What the modelled code uses of the Go language and its standard library: results with errors and
-- panics, byte slices with copy and encoding/binary, and the io.Reader and io.Writer interfaces.
pub mod Outcome
pub mod Slice
pub mod Encoder
pub mod Stream
pub mod Conn
