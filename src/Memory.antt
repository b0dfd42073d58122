-- ===== src/Memory.antt =====
-- cpp_learning_projects/memory-mgkl: two memory pools, one with a free list per slot size and one with
-- a cache for each thread behind one for all threads.
pub mod SizeClass
pub mod SlotPool
pub mod Chain
pub mod PageCache
pub mod CentralCache
pub mod ThreadCache
