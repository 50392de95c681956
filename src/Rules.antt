-- ===== src/Rules.antt =====
-- rules/: the compiled rules, their prefilters and the snapshots of them.
pub mod Match
pub mod Snapshot
pub mod Compile
pub mod Udfs
pub mod Stats
pub mod Reloader
