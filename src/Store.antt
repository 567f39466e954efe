-- ===== src/Store.antt =====
-- store_memory.go: the in-memory store over its shards.
pub mod Fnv
pub mod Memory
pub mod Routing
pub mod Laws
