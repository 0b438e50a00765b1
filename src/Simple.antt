-- ===== src/Simple.antt =====
-- The simple filters, of VapStd/simplefilters.c.
pub mod Shared
pub mod Sample
pub mod Crop
pub mod Fields
pub mod Weave
pub mod Flip
pub mod AddBorders
pub mod Transpose
