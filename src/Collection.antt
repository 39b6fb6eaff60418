-- ===== src/Collection.antt =====
-- internal/module/collector: one collection of one source, with its run, its articles and its lock.
pub mod Data
pub mod Runs
pub mod Service
pub mod Collect
pub mod Atomic
pub mod Recorded
pub mod Lock
mod Tests
