-- ===== src/Web.antt =====
-- middleware.go: HTTP middleware over a cache.
pub mod Visit
pub mod Limited
pub mod Cached
pub mod Hits
