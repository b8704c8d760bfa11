-- ===== src/Timer.antt =====
-- The timer wheel (timer/timer_list.c): its state and operations, and what they keep.
pub mod Wheel
pub mod Slots
pub mod Inv
pub mod Cascade
pub mod Round
pub mod Collect
pub mod Sums
pub mod Count
pub mod Arm
pub mod Loop
pub mod Ran
pub mod Api
pub mod Detach
pub mod Mod
pub mod Init
pub mod Spin
pub mod Handlers
pub mod Pending
mod Tests
mod ApiTests
