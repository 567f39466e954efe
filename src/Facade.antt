-- ===== src/Facade.antt =====
-- cache.go and distributed.go: the cache of one node, on its store and its connections.
pub mod Parts
pub mod Routing
pub mod Ops
pub mod Bulk
pub mod Handler
pub mod Locks
pub mod Limits
pub mod Hooks
pub mod Lifecycle
pub mod Closed
pub mod Invalidate
pub mod Namespace
pub mod Isolation
pub mod Retries
pub mod Reads
pub mod Remote
pub mod Backend
