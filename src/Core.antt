-- ===== src/Core.antt =====
-- The crate crates/lmt-core: the lifecycle of runs and attempts, schedules and retries.
pub mod State
pub mod Schedule
pub mod Ids
pub mod Config
