-- ===== src/Core.antt =====
-- The core of CatSyn: tables, locks, the allocator and the frame scheduler.
pub mod Table
pub mod Wedge
pub mod Queue
pub mod Pathway
pub mod Pool
pub mod Scheduler
