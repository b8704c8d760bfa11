-- ===== src/Tick.antt =====
-- The tick of a CPU (timer/timer.c) and its switch to high resolution (timer/hrtimer.c).
pub mod Device
pub mod Periodic
pub mod Switch
pub mod Hres
pub mod Reached
mod Tests
