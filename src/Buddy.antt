-- ===== src/Buddy.antt =====
-- BUDDY_ALLOCATOR/src/buddy_allocator.c: a buddy allocator over offsets.
pub mod Pow
pub mod Bits
pub mod Calc
pub mod State
pub mod FreeList
pub mod Chain
pub mod Geometry
pub mod Tiling
pub mod Links
pub mod Lists
pub mod Api
pub mod Inv
pub mod Take
pub mod Fill
pub mod Split
pub mod Allocate
pub mod Request
pub mod Merge
pub mod Release
pub mod Create
pub mod Creation
pub mod Disjoint
pub mod Sequence
pub mod Count
mod Tests
pub mod CallTests
