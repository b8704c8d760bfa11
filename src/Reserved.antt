-- ===== src/Reserved.antt =====
-- Reserved memory of the device tree (mm/memblock.c): what early boot reserves and removes on its behalf.
pub mod Tree
pub mod Reserve
pub mod Allocate
pub mod Scan
pub mod Keeps
pub mod Spot
pub mod Took
pub mod Blocks
pub mod Given
pub mod Windows
pub mod Sized
pub mod Since
pub mod Boot
pub mod Init
mod Trees
mod Tests
