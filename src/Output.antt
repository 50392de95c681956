-- ===== src/Output.antt =====
-- output/: where results go.
pub mod Trace
pub mod Store
pub mod Writer
