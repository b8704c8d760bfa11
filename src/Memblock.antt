-- ===== src/Memblock.antt =====
-- Boot memory (mm/memblock.c, and mm/memblock.md for the functions that the C file only calls): the
-- region arrays and what is done to them, in the order in which they build on one another.
pub mod Region
pub mod Merge
pub mod Add
pub mod Isolate
pub mod Chain
pub mod Entries
pub mod Fill
pub mod PassRounds
pub mod Passes
pub mod Counting
pub mod MergeList
pub mod MergeLoop
pub mod Grow
pub mod AddRange
pub mod Carve
pub mod IsolateRounds
pub mod IsolateLoop
pub mod RemoveLoop
pub mod Leaves
pub mod RemoveRange
pub mod Api
pub mod Limit
pub mod Alloc
pub mod Agree
pub mod Platforms
mod Tests
