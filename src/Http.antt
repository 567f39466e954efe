-- ===== src/Http.antt =====
-- internal/server: the HTTP server of a cache.
pub mod Message
pub mod Middleware
pub mod Text
pub mod Server
pub mod Caches
pub mod Locks
pub mod Limits
pub mod Cluster
pub mod Events
pub mod Routes
pub mod Streams
pub mod Bursts
pub mod Layers
pub mod Tokens
pub mod RoundTrip
