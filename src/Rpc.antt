-- ===== src/Rpc.antt =====
-- internal/transport: remote calls between the nodes.
pub mod Message
pub mod Server
pub mod Client
pub mod Laws
