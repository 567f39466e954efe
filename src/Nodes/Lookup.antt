-- ===== src/Nodes/Lookup.antt =====
-- What internal/cluster/state.go finds after any history of calls.
use cache_grid.Base.{
  ◌≡◌, refl, ◌∙◌, Bytes, Bytes-discrete, List, [], ◌∷◌, Option, none, some, ite, if◌then◌else◌,
  lookup, arith, Option-cases, inl, inr,
}
use mathlib.Core.Option
use cache_grid.Base.GoMap.{Unique, lookup-insert, lookup-delete, insert-Unique, delete-Unique}
use cache_grid.Nodes.State.{
  NodeStatus, NodeInfo, ClusterState, new_cluster_state, add_node, remove_node, get_node,
  update_status, is_alive, live_loop, live_nodes,
}

-- Each node stands once, under its own name.
pub record IsValid (cs : ClusterState) : Type 0 where
  pub unique : Unique Bytes-discrete cs.nodes
  pub named : (k : Bytes) (node : NodeInfo) → get_node cs k ≡ some node → node.name ≡ k

-- A call.
pub data Call : Type 0 where
  adds : NodeInfo → Call
  removes : Bytes → Call
  updates : Bytes → NodeStatus → Call

unfoldable pub apply : ClusterState → Call → ClusterState
apply cs (adds info) = add_node cs info
apply cs (removes name) = remove_node cs name
apply cs (updates name status) = update_status cs name status

unfoldable pub run : ClusterState → List Call → ClusterState
unfolding apply
run cs [] = cs
run cs (c ∷ calls) = run (apply cs c) calls

-- The node of a name after a call, by what it was before.
unfoldable pub after_call : Call → Bytes → Option NodeInfo → Option NodeInfo
after_call (adds info) k before = ite (Bytes-discrete info.name k) (some info) before
after_call (removes name) k before = ite (Bytes-discrete name k) none before
after_call (updates name status) k before =
    ite (Bytes-discrete name k)
      (Option.map (λ (node : NodeInfo). record node { status = status }) before) before

unfoldable pub after_calls : List Call → Bytes → Option NodeInfo → Option NodeInfo
unfolding after_call
after_calls [] k before = before
after_calls (c ∷ calls) k before = after_calls calls k (after_call c k before)

get_node-apply :
    (cs : ClusterState) (c : Call) (k : Bytes)
    → get_node (apply cs c) k ≡ after_call c k (get_node cs k)
unfolding get_node apply after_call add_node remove_node update_status
get_node-apply cs (adds info) k = lookup-insert Bytes-discrete info.name k info cs.nodes
get_node-apply cs (removes name) k = lookup-delete Bytes-discrete name k cs.nodes
get_node-apply cs (updates name status) k = elim (Option-cases (get_node cs name)) [
  | inl e ↦ ground (arith, e)
  | inr (x, e) ↦
      ground (arith, e, lookup-insert Bytes-discrete name k (record x { status = status }) cs.nodes)
]

apply-IsValid : (cs : ClusterState) (c : Call) → IsValid cs → IsValid (apply cs c)
unfolding apply add_node remove_node update_status after_call
apply-IsValid cs (adds info) v = record {
  unique = insert-Unique Bytes-discrete info.name info cs.nodes v.unique;
  named = λ k node h. ground (arith, get_node-apply cs (adds info) k, v.named k node);
}
apply-IsValid cs (removes name) v = record {
  unique = delete-Unique Bytes-discrete name cs.nodes v.unique;
  named = λ k node h. ground (arith, get_node-apply cs (removes name) k, v.named k node);
}
apply-IsValid cs (updates name status) v = elim (Option-cases (get_node cs name)) [
  | inl e ↦ rw (e, update_status) v
  | inr (x, e) ↦
      let moved = record x { status = status } in
      rw (e, update_status)
        (record {
          unique = insert-Unique Bytes-discrete name moved cs.nodes v.unique;
          named = λ k node h. ground (
            arith,
            lookup-insert Bytes-discrete name k moved cs.nodes,
            v.named k node,
            v.named name x e,
          );
        })
]

-- The first node of a name in a list.
unfoldable pub named_in : Bytes → List NodeInfo → Option NodeInfo
named_in k [] = none
named_in k (n ∷ ns) = let rest = named_in k ns in ite (Bytes-discrete k n.name) (some n) rest

-- A node, if it is alive.
unfoldable pub if_alive : Option NodeInfo → Option NodeInfo
if_alive none = none
if_alive (some node) = if is_alive node.status then some node else none

run-after_calls :
    (calls : List Call) (cs : ClusterState) (k : Bytes)
    → IsValid cs
    → IsValid (run cs calls) × (get_node (run cs calls) k ≡ after_calls calls k (get_node cs k))
unfolding run after_calls
run-after_calls [] cs k v = (v, refl)
run-after_calls (c ∷ calls) cs k v =
    let (v', same) = run-after_calls calls (apply cs c) k (apply-IsValid cs c v) in
    (v', ground (arith, same, get_node-apply cs c k))

named_in-live_loop :
    (m : List (Bytes × NodeInfo)) (k : Bytes)
    → Unique Bytes-discrete m
    → ((j : Bytes) (node : NodeInfo) → lookup Bytes-discrete j m ≡ some node → node.name ≡ j)
    → named_in k (live_loop m) ≡ if_alive (lookup Bytes-discrete k m)
unfolding named_in live_loop if_alive lookup
named_in-live_loop [] k u named = refl
named_in-live_loop ((name, node) ∷ m) k u named =
    let own : node.name ≡ name = named name node (ground arith) in
    let later : (j : Bytes) (x : NodeInfo) → lookup Bytes-discrete j m ≡ some x → x.name ≡ j =
      λ j x h. named j x (ground (arith, u.0)) in
    ground (arith, own, u.0, named_in-live_loop m k u.1 later)

start-IsValid : (self : Bytes) → IsValid (new_cluster_state self)
unfolding new_cluster_state get_node lookup
start-IsValid self = record { unique = tt; named = λ k node h. cc }

none_at_start : (self k : Bytes) → get_node (new_cluster_state self) k ≡ none
unfolding new_cluster_state get_node lookup
none_at_start self k = refl

-- After any history of calls, a node is found as its last `AddNode` and the changes of its status
-- since then have left it, if it was not removed since, and it is among the live nodes exactly if
-- that status is alive.
pub live_nodes-run :
    (self : Bytes) (calls : List Call) (k : Bytes)
    → let cs = run (new_cluster_state self) calls in
      (get_node cs k ≡ after_calls calls k none)
      × (named_in k (live_nodes cs) ≡ if_alive (after_calls calls k none))
unfolding live_nodes get_node
live_nodes-run self calls k =
    let (v, same) = run-after_calls calls (new_cluster_state self) k (start-IsValid self) in
    let found = same ∙ rw (none_at_start self k) in
    (
      found,
      named_in-live_loop (run (new_cluster_state self) calls).nodes k v.unique v.named ∙ rw found,
    )
