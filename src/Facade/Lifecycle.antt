-- ===== src/Facade/Lifecycle.antt =====
-- `New`, `Shutdown` and the sweeper of cache.go, and the handler of distributed.go for nodes that
-- leave.
use cache_grid.Base.{
  ℕ, Bytes, List, [], ◌∷◌, Option, none, some, Bool, true, false, if◌then◌else◌, codes,
}
use cache_grid.Base.Int.{ℤ, pos}
use cache_grid.Config.Options.{
  Config, Validated, accepted, disk_path_missing, not_power_of_two, negative_memory, validate,
}
use cache_grid.Facade.Ops.{is_empty}
use cache_grid.Facade.Parts.{Store, Cache}
use cache_grid.Http.Text.{atoi}
use cache_grid.Lock.Engine.{new_engine}
use cache_grid.Lock.Engine
use cache_grid.Nodes.Member.{Membership, MemberConfig, Packages, prepare, add_self}
use cache_grid.Nodes.State.{NodeInfo, new_cluster_state}
use cache_grid.Pubsub.Broker.{Event, Subscription, event_expire, new_broker, publish}
use cache_grid.Pubsub.Broker
use cache_grid.Ring.State.{new_ring}
use cache_grid.Rpc.Client.{Network, new_tcp_transport, close_conn, stop}
use cache_grid.Shard.State.{Fired}
use cache_grid.Tags.Index.{new_tag_index}
use cache_grid.Tags.Index

-- Why `New` fails.
pub data StartError : Type 0 where
  invalid_config : Validated → StartError
  store_failed : StartError
  invalid_listen_addr : StartError
  transport_failed : StartError
  cluster_failed : StartError

pub data Started (st : Store) (n : Network) : Type 0 where
  started : Cache st n → Option Membership → Started st n
  failed : StartError → Started st n

-- What `New` meets outside: the name of the host, the store that the storage mode opens,
-- `net.SplitHostPort`, whether a socket can be bound to an address, whether memberlist starts, and
-- the packages of the membership.
pub record Host (st : Store) : Type 0 where
  pub hostname : Bytes
  pub open_store : Config → Option st.S
  pub split_host_port : Bytes → Option (Bytes × Bytes)
  pub listens : Bytes → ℤ → Bool
  pub gossips : MemberConfig → Bool
  pub packages : Packages

unfoldable pub with_name : Config → Bytes → Config
with_name config hostname =
    let name = if is_empty hostname then codes "node-1" else hostname in
    if is_empty config.node_name then record config { node_name = name } else config

-- `port, _ := strconv.Atoi(portStr)`, of a number in range.
unfoldable pub port_of : Bytes → ℤ
unfolding atoi
port_of text = elim (atoi text) [ none ↦ pos 0 | some port ↦ port ]

unfoldable pub member_config : Config → Bytes → ℤ → MemberConfig
member_config config host port = record {
  node_name = config.node_name;
  bind_addr = host;
  bind_port = port;
  seeds = config.peers;
  rpc_port = config.grpc_port;
  http_port = config.http_port;
}

module _ {st : Store} {n : Network} where
  -- The cache before a cluster is joined.
  unfoldable pub new_local : Config → st.S → n.W → Cache st n
  new_local config store world = record {
    store = store;
    config = config;
    closed = false;
    cluster = none;
    transport = new_tcp_transport (pos 5000000000);
    world = world;
    lock_engine = new_engine;
    broker = new_broker;
    tags = new_tag_index;
  }

  -- The part of `New` for a listening address.
  unfoldable pub join_cluster : Host st → Cache st n → ℕ → Started st n
  unfolding member_config port_of
  join_cluster host c now = elim (host.split_host_port c.config.listen_addr) [
    | none ↦ failed invalid_listen_addr
    | some (name, port) ↦
        let bound = if is_empty name then codes "0.0.0.0" else name in
        let cfg = member_config c.config bound (port_of port) in
        let m =
          add_self host.packages
            (prepare host.packages cfg (new_cluster_state c.config.node_name)
              (new_ring c.config.virtual_nodes) true)
            now in
        if host.listens bound c.config.grpc_port
        then (if host.gossips cfg
            then started (record c { cluster = some (m.ring, m.state) }) (some m)
            else failed cluster_failed)
        else failed transport_failed
  ]

  unfoldable pub new_cache : Host st → Config → n.W → ℕ → Started st n
  unfolding with_name new_local join_cluster
  new_cache host config world now = elim (validate config) [
    | accepted valid ↦
        let named = with_name valid host.hostname in
        elim (host.open_store named) [
          | none ↦ failed store_failed
          | some store ↦
              let c = new_local named store world in
              elim named.listen_addr [ [] ↦ started c none | _ ↦ join_cluster host c now ]
        ]
    | disk_path_missing ↦ failed (invalid_config disk_path_missing)
    | not_power_of_two shards ↦ failed (invalid_config (not_power_of_two shards))
    | negative_memory limit ↦ failed (invalid_config (negative_memory limit))
  ]

  -- The subscriptions that were closed are the subscribers' too. A second call does nothing. none is
  -- the panic of the lock engine on a second shutdown of its own.
  unfoldable pub shutdown : Cache st n → Option (Cache st n × List Subscription)
  shutdown c = if c.closed then some (c, []) else elim (Engine.shutdown c.lock_engine) [
    | none ↦ none
    | some engine ↦
        let (b, closed) = Broker.shutdown c.broker in
        some (
          record c {
            closed = true;
            transport = stop c.transport;
            lock_engine = engine;
            broker = b;
          },
          closed,
        )
  ]

  -- The connection to a node that left is closed.
  unfoldable pub on_node_leave : Cache st n → NodeInfo → Cache st n
  on_node_leave c node = record c { transport = close_conn c.transport node.rpc_addr }

module _ (matches : Bytes → Bytes → Bool) {st : Store} {n : Network} where
  -- The callback that `New` sets for expirations, for each that the store reports.
  unfoldable pub expired : Cache st n → List Fired → ℕ → Cache st n
  expired c [] now = c
  expired c ((key, value) ∷ rest) now =
      let event : Event = record {
        type = event_expire;
        key = key;
        value = value;
        timestamp = none;
        node_name = [];
      } in
      expired
        (record c { broker = publish matches c.broker event now; tags = Index.remove c.tags key })
        rest now

  -- A tick of the sweeper.
  unfoldable pub sweep : Cache st n → ℕ → Cache st n × List Fired
  unfolding expired
  sweep c now =
      let (s, _, fired) = st.delete_expired c.store now in
      (expired (record c { store = s }) fired now, fired)
