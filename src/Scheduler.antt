-- ===== src/Scheduler.antt =====
-- The scheduler's priorities and load averages (scheduler/).
pub mod Prio
pub mod Load
pub mod Average
pub mod Contrib
mod Tests
