-- ===== src/Sparse.antt =====
-- The sparse memory set-up (mm/sparse_init.c): the sections of physical memory, the boot allocator that
-- serves it, the bitmaps of the sections and their page structures.
pub mod Masks
pub mod Section
pub mod Present
pub mod Marking
pub mod Virt
pub mod Backed
pub mod Usemap
pub mod Populate
pub mod Chunks
pub mod Ranked
pub mod Bitmaps
pub mod OneNode
pub mod Mapped
pub mod Ready
pub mod Boot
pub mod Init
mod Tests
