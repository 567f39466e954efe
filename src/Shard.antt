-- ===== src/Shard.antt =====
-- internal/cache: one shard of the in-memory store.
pub mod Entry
pub mod Lru
pub mod Codec
pub mod State
pub mod Ops
pub mod Order
pub mod Consistent
pub mod Keeps
pub mod Evict
pub mod Methods
pub mod Valid
pub mod Spec
pub mod Refine
pub mod Sweep
pub mod Reads
pub mod Counter
pub mod Sums
