-- ===== src/Config.antt =====
-- config.go, and the store that `New` of cache.go makes for a configuration.
pub mod Options
pub mod Accepted
