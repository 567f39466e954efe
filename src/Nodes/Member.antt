-- ===== src/Nodes/Member.antt =====
-- `Membership` of internal/cluster/member.go: what the notices of memberlist do to the ring and to
-- the table of nodes. The handler's calls are the result.
use cache_grid.Base.{
  ℕ, suc, Bytes, Bytes-discrete, List, [], ◌∷◌, ◌++◌, Option, none, some, Bool, ite, if◌then◌else◌,
}
use cache_grid.Base.Int.{ℤ, pos, negsuc}
use cache_grid.Nodes.State.{
  NodeInfo, NodeMeta, ClusterState, node_alive, node_left, update_status, get_node,
}
use cache_grid.Nodes.State as Known
use cache_grid.Ring.State.{Ring, decimal_fuel, remove_node}
use cache_grid.Ring.State as Ring

pub record MemberConfig : Type 0 where
  pub node_name : Bytes
  pub bind_addr : Bytes
  pub bind_port : ℤ
  pub seeds : List Bytes
  pub rpc_port : ℤ
  pub http_port : ℤ

-- The memberlist itself is left out.
pub record Membership : Type 0 where
  pub config : MemberConfig
  pub state : ClusterState
  pub ring : Ring
  pub has_handler : Bool
  pub meta : Bytes

-- memberlist's node. The address is its text.
pub record Node : Type 0 where
  pub name : Bytes
  pub addr : Bytes
  pub port : ℤ
  pub meta : Bytes

-- The JSON of the metadata, where `unmarshal` answers with what it leaves in an empty struct even on
-- an error, and `net.JoinHostPort`.
pub record Packages : Type 0 where
  pub marshal : NodeMeta → Bytes
  pub unmarshal : Bytes → NodeMeta
  pub join_host_port : Bytes → Bytes → Bytes

pub data HandlerCall : Type 0 where
  on_node_join : NodeInfo → HandlerCall
  on_node_leave : NodeInfo → HandlerCall
  on_node_update : NodeInfo → HandlerCall

-- `%d`, and `strconv.Itoa`.
unfoldable pub decimal : ℤ → Bytes
unfolding decimal_fuel
decimal (pos n) = decimal_fuel (suc n) n []
decimal (negsuc n) = b'-' ∷ decimal_fuel (suc (suc n)) (suc n) []

-- `%s:%d`.
unfoldable pub at_port : Bytes → ℤ → Bytes
unfolding decimal
at_port host port = host ++ b':' ∷ decimal port

module _ (p : Packages) where
  unfoldable pub node_to_info : Node → ℕ → NodeInfo
  unfolding at_port
  node_to_info node now =
      let empty : NodeMeta = record { rpc_port = pos 0; http_port = pos 0; version = [] } in
      let meta : NodeMeta = elim node.meta [ [] ↦ empty | c ∷ rest ↦ p.unmarshal (c ∷ rest) ] in
      record {
        name = node.name;
        addr = at_port node.addr node.port;
        rpc_addr = p.join_host_port node.addr (decimal meta.rpc_port);
        http_addr = p.join_host_port node.addr (decimal meta.http_port);
        status = node_alive;
        joined_at = some now;
        meta = meta;
      }

  -- The call of the handler, if there is one and the notice is not about this node.
  unfoldable pub tell : Membership → Bytes → HandlerCall → List HandlerCall
  tell m name call =
      if m.has_handler then ite (Bytes-discrete name m.config.node_name) [] (call ∷ []) else []

  unfoldable pub notify_join : Membership → Node → ℕ → Membership × List HandlerCall
  unfolding node_to_info tell
  notify_join m node now =
      let info = node_to_info node now in
      (
        record m { state = Known.add_node m.state info; ring = Ring.add_node m.ring node.name },
        tell m node.name (on_node_join info),
      )

  -- none is a panic in `RemoveNode`.
  unfoldable pub notify_leave : Membership → Node → ℕ → Option (Membership × List HandlerCall)
  unfolding node_to_info tell
  notify_leave m node now =
      let info : NodeInfo = record (node_to_info node now) { status = node_left } in
      elim (remove_node m.ring node.name) [
        | none ↦ none
        | some ring ↦ some (
          record m { state = update_status m.state node.name node_left; ring = ring },
          tell m node.name (on_node_leave info),
        )
      ]

  unfoldable pub notify_update : Membership → Node → ℕ → Membership × List HandlerCall
  unfolding node_to_info tell
  notify_update m node now =
      let info = node_to_info node now in
      (record m { state = Known.add_node m.state info }, tell m node.name (on_node_update info))

  unfoldable pub self_node : MemberConfig → ℕ → NodeInfo
  unfolding at_port
  self_node cfg now = record {
    name = cfg.node_name;
    addr = at_port cfg.bind_addr cfg.bind_port;
    rpc_addr = at_port cfg.bind_addr cfg.rpc_port;
    http_addr = at_port cfg.bind_addr cfg.http_port;
    status = node_alive;
    joined_at = some now;
    meta = record { rpc_port = cfg.rpc_port; http_port = cfg.http_port; version = [] };
  }

  -- Before `Create`, which may already send notices.
  unfoldable pub prepare : MemberConfig → ClusterState → Ring → Bool → Membership
  prepare cfg state ring has_handler = record {
    config = cfg;
    state = state;
    ring = ring;
    has_handler = has_handler;
    meta = p.marshal (record { rpc_port = cfg.rpc_port; http_port = cfg.http_port; version = [] });
  }

  -- What `NewMembership` does once memberlist has started.
  unfoldable pub add_self : Membership → ℕ → Membership
  unfolding self_node
  add_self m now = record m {
    state = Known.add_node m.state (self_node m.config now);
    ring = Ring.add_node m.ring m.config.node_name;
  }

unfoldable pub local_node : Membership → Option NodeInfo
local_node m = get_node m.state m.config.node_name

abbrev pub node_meta : Membership → Bytes
node_meta m = m.meta
