-- ===== src/Packets.antt =====
-- packets/*.go: a module for each control packet, with the struct, MarshalBinary and ReadFrom, and
-- PacketIO in Packets/Io.
pub mod Frame
pub mod PubAck
pub mod PubRec
pub mod PubRel
pub mod PubComp
pub mod UnsubAck
pub mod PingReq
pub mod PingResp
pub mod Disconnect
pub mod Connect
pub mod ConnAck
pub mod PacketIo
pub mod Publish
pub mod Subscribe
pub mod SubAck
pub mod Unsubscribe
