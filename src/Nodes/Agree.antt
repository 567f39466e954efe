-- ===== src/Nodes/Agree.antt =====
-- The ring and the table of nodes of internal/cluster/member.go.
use cache_grid.Base.{
  ℕ, Bytes, Bytes-discrete, List, ◌≡◌, refl, none, some, Bool, true, false, ite, lookup,
  Option-cases, inl, inr, arith,
}
use cache_grid.Base.Int.{ℤ}
use cache_grid.Base.GoMap.{lookup-insert, lookup-delete}
use cache_grid.Nodes.Member.{
  Membership, MemberConfig, Node, Packages, node_to_info, notify_join, notify_leave, notify_update,
  prepare, add_self, self_node, HandlerCall,
}
use cache_grid.Nodes.State.{
  NodeInfo, NodeStatus, ClusterState, new_cluster_state, get_node, update_status, is_alive,
  node_left,
}
use cache_grid.Nodes.State as Known
use cache_grid.Ring.State.{Ring, has_node, new_ring, remove_node}
use cache_grid.Ring.State as Ring

-- Whether a node is known to be alive.
unfoldable pub alive : ClusterState → Bytes → Bool
alive cs name = elim (get_node cs name) [ none ↦ false | some node ↦ is_alive node.status ]

-- The members of the ring are the nodes that are alive.
abbrev pub Agrees : Membership → Type 0
Agrees m = (name : Bytes) → has_node m.ring name ≡ alive m.state name

-- A history of notices. An update is about a node that has joined.
pub data Steps (p : Packages) (m : Membership) : Membership → Type 0 where
  start : Steps p m m
  joined :
      {m' : Membership}
      → Steps p m m'
      → (node : Node) (now : ℕ) → Steps p m (notify_join p m' node now).0
  left :
      {m' : Membership}
      → Steps p m m'
      → (node : Node) (now : ℕ) (m'' : Membership) (calls : List HandlerCall)
      → notify_leave p m' node now ≡ some (m'', calls)
      → Steps p m m''
  updated :
      {m' : Membership}
      → Steps p m m'
      → (node : Node) (now : ℕ) → has_node m'.ring node.name ≡ true
      → Steps p m (notify_update p m' node now).0
  added : {m' : Membership} → Steps p m m' → (now : ℕ) → Steps p m (add_self p m' now)

has_node-add_node :
    (r : Ring) (name k : Bytes)
    → has_node (Ring.add_node r name) k ≡ ite (Bytes-discrete name k) true (has_node r k)
unfolding Ring.add_node has_node
has_node-add_node r name k = ground (arith, lookup-insert Bytes-discrete name k true r.members)

has_node-remove_node :
    (r : Ring) (name k : Bytes) (r' : Ring)
    → remove_node r name ≡ some r'
    → has_node r' k ≡ ite (Bytes-discrete name k) false (has_node r k)
unfolding remove_node has_node
has_node-remove_node r name k r' done =
    ground (arith, done, lookup-delete Bytes-discrete name k r.members)

alive-add_node :
    (cs : ClusterState) (info : NodeInfo) (k : Bytes)
    → is_alive info.status ≡ true
    → alive (Known.add_node cs info) k ≡ ite (Bytes-discrete info.name k) true (alive cs k)
unfolding alive Known.add_node get_node
alive-add_node cs info k up =
    ground (arith, up, lookup-insert Bytes-discrete info.name k info cs.nodes)

alive-update_status :
    (cs : ClusterState) (name k : Bytes)
    → alive (update_status cs name node_left) k ≡ ite (Bytes-discrete name k) false (alive cs k)
unfolding alive update_status get_node is_alive
alive-update_status cs name k = elim (Option-cases (lookup Bytes-discrete name cs.nodes)) [
  | inl e ↦ ground (arith, e)
  | inr (x, e) ↦
      ground
        (arith, e, lookup-insert Bytes-discrete name k (record x { status = node_left }) cs.nodes)
]

step-Agrees :
    (p : Packages) (m : Membership) (info : NodeInfo)
    → Agrees m
    → is_alive info.status ≡ true
    → (k : Bytes)
    → has_node (Ring.add_node m.ring info.name) k ≡ alive (Known.add_node m.state info) k
step-Agrees p m info agrees up k =
    ground (arith, agrees k, has_node-add_node m.ring info.name k, alive-add_node m.state info k up)

join-Agrees :
    (p : Packages) (m : Membership) (node : Node) (now : ℕ)
    → Agrees m
    → Agrees (notify_join p m node now).0
unfolding notify_join node_to_info is_alive
join-Agrees p m node now agrees = step-Agrees p m (node_to_info p node now) agrees refl

added-Agrees : (p : Packages) (m : Membership) (now : ℕ) → Agrees m → Agrees (add_self p m now)
unfolding add_self self_node is_alive
added-Agrees p m now agrees = step-Agrees p m (self_node p m.config now) agrees refl

leave-Agrees :
    (p : Packages) (m m' : Membership) (node : Node) (now : ℕ) (calls : List HandlerCall)
    → notify_leave p m node now ≡ some (m', calls)
    → Agrees m
    → Agrees m'
unfolding notify_leave
leave-Agrees p m m' node now calls done agrees k =
    elim (Option-cases (remove_node m.ring node.name)) [
      | inl e ↦ ground (arith, e, done)
      | inr (r, e) ↦ ground (
        arith,
        e,
        done,
        agrees k,
        has_node-remove_node m.ring node.name k r e,
        alive-update_status m.state node.name k,
      )
    ]

update-Agrees :
    (p : Packages) (m : Membership) (node : Node) (now : ℕ)
    → has_node m.ring node.name ≡ true
    → Agrees m
    → Agrees (notify_update p m node now).0
unfolding notify_update node_to_info is_alive
update-Agrees p m node now known agrees k =
    ground (arith, agrees k, known, alive-add_node m.state (node_to_info p node now) k refl)

-- Membership of a node that starts with an empty ring and table: after any history of notices in
-- which an update is about a node that is in the ring, and in which `RemoveNode` does not panic, the
-- members of the ring are exactly the nodes whose status in the table is alive.
pub Steps-Agrees :
    (p : Packages) (cfg : MemberConfig) (vnodes : ℤ) (has_handler : Bool) {m : Membership}
    → Steps p (prepare p cfg (new_cluster_state cfg.node_name) (new_ring vnodes) has_handler) m
    → Agrees m
unfolding prepare new_cluster_state new_ring alive has_node get_node lookup
Steps-Agrees p cfg vnodes has_handler start = λ k. refl
Steps-Agrees p cfg vnodes has_handler (joined {m'} steps node now) =
    join-Agrees p m' node now (Steps-Agrees p cfg vnodes has_handler steps)
Steps-Agrees p cfg vnodes has_handler (left {m'} steps node now m'' calls done) =
    leave-Agrees p m' m'' node now calls done (Steps-Agrees p cfg vnodes has_handler steps)
Steps-Agrees p cfg vnodes has_handler (updated {m'} steps node now known) =
    update-Agrees p m' node now known (Steps-Agrees p cfg vnodes has_handler steps)
Steps-Agrees p cfg vnodes has_handler (added {m'} steps now) =
    added-Agrees p m' now (Steps-Agrees p cfg vnodes has_handler steps)
