-- ===== src/Nodes/State.antt =====
-- `ClusterState` of internal/cluster/state.go. The map holds pointers: a node that a caller got
-- from it or gave to it shows later changes of the status too.
use cache_grid.Base.{
  ℕ, Bytes, Bytes-discrete, List, [], ◌∷◌, map, Option, none, some, Bool, true, false,
  if◌then◌else◌, lookup, length,
}
use cache_grid.Base.Int.{ℤ}
use cache_grid.Base.GoMap.{insert, delete}

-- A number that is none of the constants is `other`.
pub data NodeStatus : Type 0 where
  node_alive : NodeStatus
  node_suspect : NodeStatus
  node_dead : NodeStatus
  node_left : NodeStatus
  other : ℤ → NodeStatus

unfoldable pub status_name : NodeStatus → Bytes
status_name node_alive = b'a' ∷ b'l' ∷ b'i' ∷ b'v' ∷ b'e' ∷ []
status_name node_suspect = b's' ∷ b'u' ∷ b's' ∷ b'p' ∷ b'e' ∷ b'c' ∷ b't' ∷ []
status_name node_dead = b'd' ∷ b'e' ∷ b'a' ∷ b'd' ∷ []
status_name node_left = b'l' ∷ b'e' ∷ b'f' ∷ b't' ∷ []
status_name (other _) = b'u' ∷ b'n' ∷ b'k' ∷ b'n' ∷ b'o' ∷ b'w' ∷ b'n' ∷ []

pub record NodeMeta : Type 0 where
  pub rpc_port : ℤ
  pub http_port : ℤ
  pub version : Bytes

pub record NodeInfo : Type 0 where
  pub name : Bytes
  pub addr : Bytes
  pub rpc_addr : Bytes
  pub http_addr : Bytes
  pub status : NodeStatus
  pub joined_at : Option ℕ
  pub meta : NodeMeta

pub record ClusterState : Type 0 where
  pub nodes : List (Bytes × NodeInfo)
  pub self : Bytes

unfoldable pub new_cluster_state : Bytes → ClusterState
new_cluster_state self_name = record { nodes = []; self = self_name }

unfoldable pub add_node : ClusterState → NodeInfo → ClusterState
add_node cs info = record cs { nodes = insert Bytes-discrete info.name info cs.nodes }

unfoldable pub remove_node : ClusterState → Bytes → ClusterState
remove_node cs name = record cs { nodes = delete Bytes-discrete name cs.nodes }

unfoldable pub get_node : ClusterState → Bytes → Option NodeInfo
get_node cs name = lookup Bytes-discrete name cs.nodes

unfoldable pub update_status : ClusterState → Bytes → NodeStatus → ClusterState
unfolding get_node
update_status cs name status = elim (get_node cs name) [
  | none ↦ cs
  | some node ↦ record cs {
    nodes = insert Bytes-discrete name (record node { status = status }) cs.nodes;
  }
]

unfoldable pub is_alive : NodeStatus → Bool
is_alive node_alive = true
is_alive _ = false

unfoldable pub live_loop : List (Bytes × NodeInfo) → List NodeInfo
unfolding is_alive
live_loop [] = []
live_loop ((name, node) ∷ rest) =
    let more = live_loop rest in if is_alive node.status then node ∷ more else more

unfoldable pub live_nodes : ClusterState → List NodeInfo
unfolding live_loop
live_nodes cs = live_loop cs.nodes

unfoldable pub all_nodes : ClusterState → List NodeInfo
all_nodes cs = map (λ b. b.1) cs.nodes

abbrev pub self_name : ClusterState → Bytes
self_name cs = cs.self

unfoldable pub node_count : ClusterState → ℕ
node_count cs = length cs.nodes
