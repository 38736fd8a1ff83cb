-- ===== src/Tests.antt =====
-- Concrete inputs: a connection with its bytes in memory, runs of the code on it, and the theorems at
-- inputs that meet their hypotheses.
pub mod Connections
pub mod Witnesses
pub mod Filters
pub mod Connects
pub mod Runs
pub mod Clients
pub mod Answers
pub mod Deliveries
