-- ===== src/Tests/Facades.antt =====
-- The cache of cache.go on the memory store: alone, and as one of two nodes.
use cache_grid.Base.{ℕ, ◌≡◌, refl, Bytes, [], Option, none, some, Bool, false, arith}
use cache_grid.Base.Int.{pos}
use cache_grid.Config.Options.{default_config}
use cache_grid.Lock.Engine.{new_engine}
use cache_grid.Nodes.State as KnownNodes
use cache_grid.Nodes.State.{ClusterState, new_cluster_state}
use cache_grid.Pubsub.Broker.{new_broker}
use cache_grid.Ring.State.{Ring}
use cache_grid.Rpc.Client.{Network, new_tcp_transport}
use cache_grid.Tags.Index.{new_tag_index}
use cache_grid.Facade.Parts.{Marshaller, bytes, bytes_dest, serialize, deserialize, Cache}
use cache_grid.Facade.Routing.{owner_addr}
use cache_grid.Facade.Ops
use cache_grid.Facade.Ops.{is_empty, is_zero}
use cache_grid.Facade.Reads.{get-set_here, effective_ttl}
use cache_grid.Facade.Remote.{peer, get-set_remote}
use cache_grid.Facade.Backend.{memory, Admits, memory-ReadsBack}
use cache_grid.Tests.Counters.{digits}
use cache_grid.Tests.Data.{key_a, key_b, value_2, two_items}
use cache_grid.Tests.Nodes.{node}
use cache_grid.Tests.Rings.{ring_code, two_nodes}
use cache_grid.Tests.Stores.{store, store-IsValid, store_code}

-- Values other than bytes are numbers.
abbrev pub numbers : Marshaller ℕ
numbers = record { marshal = digits.marshal; unmarshal = digits.unmarshal }

abbrev pub no_match : Bytes → Bytes → Bool
no_match pattern key = false

-- A network that reaches nobody.
abbrev pub nobody : Network
nobody = record { W = Unit {0}; dial = λ w addr. (w, none); exchange = λ w conn req. (w, none) }

abbrev node_cache : (n : Network) → Option (Ring × ClusterState) → n.W → Cache (memory digits) n
node_cache n cluster world = record {
  store = store;
  config = default_config;
  closed = false;
  cluster = cluster;
  transport = new_tcp_transport (pos 0);
  world = world;
  lock_engine = new_engine;
  broker = new_broker;
  tags = new_tag_index;
}

abbrev pub alone : Cache (memory digits) nobody
alone = node_cache nobody none tt

pub store_Admits : Admits store key_a value_2
unfolding store_code
store_Admits = (store-IsValid, (two_items, refl, λ h. omega arith))

get-set_here_example :
    let (c', err, _) = Ops.set no_match numbers alone key_a (bytes value_2) (pos 7) 12 in
    (err ≡ none)
    × ((Ops.get no_match numbers c' key_a bytes_dest 19).1 ≡ deserialize numbers value_2 bytes_dest)
unfolding owner_addr is_empty serialize effective_ttl is_zero
get-set_here_example =
    get-set_here no_match numbers (memory digits) Admits alone key_a value_2 (bytes value_2)
      bytes_dest (pos 7) 12 19 (memory-ReadsBack digits) refl refl refl refl store_Admits
      (λ h. omega arith)

-- The node `a` of a ring of two, which knows the other one by the address `b`.
abbrev known : ClusterState
known =
    KnownNodes.add_node (KnownNodes.add_node (new_cluster_state key_a) (node key_a))
      (record (node key_b) { rpc_addr = key_b })

abbrev to_other : Network
to_other = peer no_match [] [] (memory digits) nobody 12

abbrev one_of_two : Cache (memory digits) to_other
one_of_two = node_cache to_other (some (two_nodes, known)) alone

-- The key falls to the node `b`.
far_key : owner_addr one_of_two.cluster key_a ≡ key_b
unfolding ring_code owner_addr KnownNodes.add_node KnownNodes.get_node new_cluster_state
far_key = refl

get-set_remote_example :
    let (c', err, _) = Ops.set no_match numbers one_of_two key_a (bytes value_2) (pos 7) 12 in
    (err ≡ none)
    × (c'.world.store
        ≡ ((memory digits).set alone.store key_a value_2
            (effective_ttl one_of_two.config.default_ttl (pos 7))
            12).0)
    × ((Ops.get no_match numbers c' key_a bytes_dest 12).1 ≡ deserialize numbers value_2 bytes_dest)
unfolding default_config is_empty serialize effective_ttl is_zero
get-set_remote_example =
    get-set_remote no_match [] [] numbers (memory digits) (memory digits) nobody Admits 12
      one_of_two key_a value_2 (bytes value_2) bytes_dest (pos 7) b'b' [] (memory-ReadsBack digits)
      refl far_key refl refl refl store_Admits (λ h. omega arith)
