-- ===== src/Client.antt =====
-- client/*.go: the tables of the client and the identifiers of its packets.
pub mod IdMap
pub mod PacketMap
pub mod PacketChanMap
pub mod PacketId
pub mod SubMap
pub mod Options
pub mod Channels
pub mod State
pub mod Actions
pub mod Prog
pub mod Receive
pub mod Calls
pub mod System
pub mod Logic
pub mod Tables
pub mod Stranded
pub mod Faults
pub mod Answered
pub mod Delivery
