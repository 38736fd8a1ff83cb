-- ===== src/Go/Conn.antt =====
-- net.Conn as a parameter: its two halves, the deadlines of each, and Close.
use mqttie.Prelude.{Option}
use mqttie.Mqtt.{Error}
use mqttie.Go.Stream.{Reader, Writer}

-- A deadline is set for the time of the call plus a timeout; what it does to later reads and writes is
-- the connection's own.
pub record Conn : Type 1 where
  pub reader : Reader
  pub writer : Writer
  pub set_read_deadline : reader.Stream → Option Error × reader.Stream
  pub set_write_deadline : writer.Sink → Option Error × writer.Sink
  pub close : reader.Stream → writer.Sink → Option Error × reader.Stream × writer.Sink
