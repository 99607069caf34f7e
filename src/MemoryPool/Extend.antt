-- ===== src/MemoryPool/Extend.antt =====
-- `alloc_extend` places the new tokens of each sequence: Parts and Stores are about one instance of
-- the kernel, Batch about the launch and the allocator's method.
mod Parts
mod Stores
pub mod Batch
