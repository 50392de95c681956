-- ===== src/Executor.antt =====
-- executor/: rule evaluation over a pool of workers.
pub mod Verdict
pub mod Counters
pub mod Env
pub mod Pool
pub mod Event
