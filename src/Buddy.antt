-- ===== src/Buddy.antt =====
-- The set-up of the buddy allocator (mm/buddy.c): zone sizes and holes, page counts, wait tables, the
-- counters of a zone, and the page structures.
pub mod Frames
pub mod Holes
pub mod WaitTable
pub mod Stat
pub mod Zone
pub mod Pageblock
pub mod Memmap
pub mod Painted
pub mod PageInit
pub mod Core
pub mod Round
pub mod Rounds
pub mod Laid
pub mod Boot
pub mod Bits
pub mod Zonelist
pub mod Grew
pub mod Fallback
pub mod Flags
mod Tests
mod ListTests
