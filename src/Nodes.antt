-- ===== src/Nodes.antt =====
-- internal/cluster/state.go: the nodes that a node knows of.
pub mod State
pub mod Lookup
pub mod Member
pub mod Agree
