-- ===== src/Ws.antt =====
-- crates/rsrpc-transport-ws: the WebSocket transport of the game clients.
pub mod Sink
pub mod Slots
pub mod Handlers
pub mod Pump
pub mod Drain
