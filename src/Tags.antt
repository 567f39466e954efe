-- ===== src/Tags.antt =====
-- tags.go: the index between tags and keys.
pub mod Index
pub mod Linked
pub mod Lookup
pub mod Purge
