-- ===== src/Bridge/Invariant.antt =====
-- The bound and the distinctness of every table, kept by every input.
pub mod Tables
pub mod Steps
pub mod Inputs
