-- ===== src/Tests.antt =====
-- Runs of the modelled code, and the theorems at concrete inputs.
mod Data
mod Shards
mod Counters
mod Stores
mod Locks
mod Tags
mod Rings
mod Pebbles
mod Pubsubs
mod Nodes
mod Members
mod Rpcs
mod Configs
mod Limits
mod Facades
mod Namespaces
mod Retries
mod Lifecycles
mod Servers
mod Webs
