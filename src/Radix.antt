-- ===== src/Radix.antt =====
-- miniinfer/kvcache/radix_cache.py: the tree of cached prefixes.
pub mod Keys
pub mod Tree
pub mod Cache
pub mod Reads
pub mod Change
pub mod Split
pub mod Match
pub mod Descent
pub mod Insert
pub mod Weight
pub mod Lock
pub mod Unlock
pub mod Sizes
pub mod Lookup
pub mod Store
pub mod Held
pub mod Evict
pub mod Delete
pub mod Others
pub mod Heap
pub mod Leaves
pub mod Eviction
pub mod EvictAll
pub mod Totals
pub mod Runs
pub mod Ends
pub mod Nodes
pub mod Locked
pub mod Complete
