-- ===== src/Limit.antt =====
-- The rate limiters of internal/ratelimit and ratelimit.go.
pub mod Float
pub mod Bucket
pub mod Window
pub mod Calls
pub mod Burst
pub mod Steps
pub mod Span
