-- ===== src/Protocol.antt =====
-- crates/rsrpc-protocol: the payloads that the bridge publishes, and the flood guard.
pub mod Query
pub mod Flood
pub mod Cached
pub mod Replies
