-- ===== src/Ipc.antt =====
-- crates/rsrpc-transport-ipc: the connections of local game clients.
pub mod Frame
pub mod Pids
pub mod Session
pub mod Stream
