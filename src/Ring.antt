-- ===== src/Ring.antt =====
-- internal/cluster/hashring.go: the consistent hash ring.
pub mod State
pub mod Search
pub mod Order
pub mod Owner
pub mod Rotation
pub mod Several
pub mod Add
pub mod Others
pub mod Remove
