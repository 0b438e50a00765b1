-- ===== src/Plugin.antt =====
-- The plugin interface that the filters are written against: the types of VapStd/VapourSynth.h and
-- the behaviour that Metalloporphyrin/src/map.cpp, node.cpp and func.cpp give its functions.
pub mod Types
pub mod VsMap
pub mod Picture
pub mod Action
pub mod Create
pub mod Fetch
pub mod Helper
pub mod Rational
pub mod Clips
pub mod Qsort
pub mod InsertionSort
