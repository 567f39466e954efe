-- ===== src/Lock.antt =====
-- internal/lock/lock.go: the lock engine of one node.
pub mod Engine
pub mod Calls
pub mod Invariant
pub mod Fencing
pub mod Holder
