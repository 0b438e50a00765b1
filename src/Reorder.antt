-- ===== src/Reorder.antt =====
-- VapStd/reorderfilters.c, filter by filter: the functions that pick, repeat and drop frames.
pub mod Sample
pub mod Trim
pub mod Reverse
pub mod Loop
pub mod Shared
pub mod Duration
pub mod Sorting
pub mod Interleave
pub mod SelectEvery
pub mod Splice
pub mod DuplicateFrames
pub mod DeleteFrames
pub mod FreezeFrames
