-- ===== src/Pubsub.antt =====
-- internal/pubsub: the broker of cache events.
pub mod Broker
pub mod Delivery
pub mod Glob
pub mod Match
pub mod Literal
pub mod Fuel
pub mod Total
