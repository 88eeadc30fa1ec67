-- ===== src/Detect.antt =====
-- crates/rsrpc-detect and crates/rsrpc-telemetry: how running games are found and reported.
pub mod Types
pub mod Channel
pub mod Lane
pub mod Paths
pub mod Index
pub mod Titles
pub mod Variants
pub mod Bundle
pub mod Hits
pub mod Probes
pub mod Lookups
pub mod AppIds
pub mod Matching
