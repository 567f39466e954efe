-- ===== src/Tests/Members.antt =====
-- The membership of a node `a` that sees `b` join and leave.
use cache_grid.Base.{◌≡◌, refl, List, [], none, some, true, false, ◌∷◌}
use cache_grid.Base.Int.{pos}
use cache_grid.Nodes.Agree.{alive, start, joined, left, added, Steps-Agrees}
use cache_grid.Nodes.Member.{
  Membership, MemberConfig, Node, Packages, HandlerCall, on_node_leave, prepare, add_self,
  self_node, notify_join, notify_leave, node_to_info, tell,
}
use cache_grid.Nodes.State.{node_left, new_cluster_state, get_node, update_status, is_alive}
use cache_grid.Nodes.State as Known
use cache_grid.Ring.State.{has_node, new_ring, remove_node}
use cache_grid.Tests.Data.{key_a, key_b}
use cache_grid.Tests.Rings.{ring_code}

abbrev packages : Packages
packages = record {
  marshal = λ meta. [];
  unmarshal = λ meta. record { rpc_port = pos 1; http_port = pos 2; version = [] };
  join_host_port = λ host port. host;
}

abbrev config : MemberConfig
config = record {
  node_name = key_a;
  bind_addr = [];
  bind_port = pos 1;
  seeds = [];
  rpc_port = pos 2;
  http_port = pos 3;
}

abbrev node_b : Node
node_b = record { name = key_b; addr = key_b; port = pos 4; meta = [] }

abbrev fresh : Membership
fresh = prepare packages config (new_cluster_state key_a) (new_ring (pos 2)) true

abbrev both : Membership
both = (notify_join packages (add_self packages fresh 5) node_b 6).0

-- `b` has left.
abbrev one : Membership
one = record both {
  state = update_status both.state key_b node_left;
  ring = elim (remove_node both.ring key_b) [ none ↦ both.ring | some r ↦ r ];
}

abbrev told : List HandlerCall
told = on_node_leave (record (node_to_info packages node_b 7) { status = node_left }) ∷ []

leave_run : notify_leave packages both node_b 7 ≡ some (one, told)
unfolding ring_code notify_leave notify_join prepare add_self self_node tell new_cluster_state
leave_run = refl

members_run : (alive one.state key_a ≡ true) × (has_node one.ring key_b ≡ false)
unfolding ring_code alive notify_join prepare add_self self_node node_to_info new_cluster_state
    Known.add_node get_node update_status is_alive
members_run = (refl, refl)

Steps-Agrees_example : has_node one.ring key_b ≡ alive one.state key_b
Steps-Agrees_example =
    Steps-Agrees packages config (pos 2) true
      (left (joined (added start 5) node_b 6) node_b 7 one told leave_run) key_b
