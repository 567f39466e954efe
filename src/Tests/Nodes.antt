-- ===== src/Tests/Nodes.antt =====
-- internal/cluster/state.go after a history.
use cache_grid.Base.{◌≡◌, refl, Bytes, Bytes-discrete, ℕ_discrete, lookup, List, [], ◌∷◌, none}
use cache_grid.Base.Int.{pos}
use cache_grid.Base.GoMap.{insert, delete}
use cache_grid.Nodes.State.{
  NodeInfo, node_alive, node_dead, node_suspect, new_cluster_state, add_node, remove_node,
  update_status, get_node, live_nodes, live_loop, is_alive, node_count,
}
use cache_grid.Nodes.Lookup.{
  Call, adds, updates, run, apply, after_calls, named_in, if_alive, live_nodes-run,
}
use cache_grid.Tests.Data.{key_a, key_b}

abbrev pub node : Bytes → NodeInfo
node name = record {
  name = name;
  addr = [];
  rpc_addr = [];
  http_addr = [];
  status = node_alive;
  joined_at = none;
  meta = record { rpc_port = pos 7947; http_port = pos 0; version = [] };
}

abbrev node_history : List Call
node_history =
    adds (node key_a)
    ∷ adds (node key_b)
    ∷ updates key_a node_suspect
    ∷ updates key_b node_dead
    ∷ updates key_a node_alive
    ∷ []

nodes_run :
    (live_nodes (run (new_cluster_state key_a) node_history) ≡ node key_a ∷ [])
    × (node_count (run (new_cluster_state key_a) node_history) ≡ 2)
unfolding lookup ℕ_discrete Bytes-discrete insert delete new_cluster_state add_node remove_node
    update_status get_node live_nodes live_loop is_alive node_count run apply
nodes_run = (refl, refl)

live_nodes-run_example :
    let cs = run (new_cluster_state key_a) node_history in
    (get_node cs key_b ≡ after_calls node_history key_b none)
    × (named_in key_b (live_nodes cs) ≡ if_alive (after_calls node_history key_b none))
live_nodes-run_example = live_nodes-run key_a node_history key_b
