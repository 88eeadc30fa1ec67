-- ===== src/Bridge.antt =====
-- crates/rsrpc-bridge: the state that the pumps share, and what each input does to it.
pub mod Table
pub mod Handoff
pub mod Replay
pub mod Shared
pub mod Router
pub mod Pump
pub mod Invariant
pub mod Joining
pub mod Run
pub mod Control
