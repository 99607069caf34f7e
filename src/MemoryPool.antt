-- ===== src/MemoryPool.antt =====
-- miniinfer/kvcache/memory_pool.py: the page allocator with its two kernels, the slot allocator and
-- the request pool. A tensor of indices is a list of numbers, a device buffer a function of its
-- address, and one instance of a kernel the list of its writes.
pub mod Slots
pub mod Sizes
pub mod Torch
pub mod Launch
pub mod Kernels
pub mod Place
pub mod Paged
pub mod Decode
pub mod Extend
