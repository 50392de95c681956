-- ===== src/Tests.antt =====
-- Runs of the model at concrete inputs.
pub mod Counters
pub mod Verdicts
pub mod Peers
pub mod Server
pub mod Matching
pub mod Storage
pub mod Compiling
pub mod Viewing
pub mod Reloading
pub mod Shutdown
pub mod Replaying
