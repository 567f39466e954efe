-- ===== src/Pebble.antt =====
-- store_pebble.go: the store on disk.
pub mod Format
pub mod Db
pub mod State
pub mod Laws
