-- ===== src/Tests.antt =====
-- Runs of the model at concrete inputs.
mod Fixtures
mod Pumps
mod Publishing
mod Guarding
mod Texts
mod Packets
mod Sessions
mod Transports
mod Scanning
mod Matching
mod Controlling
