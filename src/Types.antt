-- ===== src/Types.antt =====
-- crates/rsrpc-types: ids, activity commands and their normalisation.
pub mod Ids
pub mod Json
pub mod Cmd
pub mod Fix
pub mod User
