-- ===== src/Facade/Parts.antt =====
-- The interface `Store` of store.go, the serializer of internal/cache/serializer.go, and the state of
-- `Cache` of cache.go.
use cache_grid.Base.{ℕ, Bytes, List, Option, some, Bool}
use mathlib.Core.Option
use cache_grid.Base.Int.{ℤ}
use cache_grid.Shard.State.{Fired}
use cache_grid.Config.Options.{Config}
use cache_grid.Lock.Engine.{Engine}
use cache_grid.Nodes.State.{ClusterState}
use cache_grid.Pubsub.Broker.{Broker}
use cache_grid.Ring.State.{Ring}
use cache_grid.Rpc.Client.{Network, TcpTransport, CallError}
use cache_grid.Rpc.Message.{Request}
use cache_grid.Tags.Index.{TagIndex}

-- A store over its states. A call reads the clock once, and answers with the evictions, or
-- expirations, that it reports. A counter is none on an error.
pub record Store : Type 1 where
  pub S : Type 0
  pub get : S → Bytes → ℕ → S × Option Bytes
  pub set : S → Bytes → Bytes → ℤ → ℕ → S × List Fired
  pub delete : S → Bytes → S × Bool
  pub exists : S → Bytes → ℕ → S × Bool
  pub ttl : S → Bytes → ℕ → S × ℤ
  pub incr : S → Bytes → ℕ → ℤ → ℕ → S × Option ℕ × List Fired
  pub delete_expired : S → ℕ → S × ℕ × List Fired
  pub len : S → ℕ

-- msgpack for the other types of values.
pub record Marshaller (V : Type 0) : Type 0 where
  pub marshal : V → Option Bytes
  pub unmarshal : Bytes → Option V

-- A value is a `[]byte` or of another type, and so is the variable that a value is read into.
pub data Value (V : Type 0) : Type 0 where
  bytes : Bytes → Value V
  other : V → Value V

pub data Dest : Type 0 where
  bytes_dest : Dest
  other_dest : Dest

module _ {V : Type 0} (m : Marshaller V) where
  unfoldable pub serialize : Value V → Option Bytes
  serialize (bytes b) = some b
  serialize (other v) = m.marshal v

  unfoldable pub deserialize : Bytes → Dest → Option (Value V)
  deserialize raw bytes_dest = some (bytes raw)
  deserialize raw other_dest = Option.map other (m.unmarshal raw)

-- The ring and the state of the cluster are set together, or neither in local mode. `matches` is
-- what `path.Match` answers, `W` the state of the network.
pub record Cache (st : Store) (n : Network) : Type 0 where
  pub store : st.S
  pub config : Config
  pub closed : Bool
  pub cluster : Option (Ring × ClusterState)
  pub transport : TcpTransport
  pub world : n.W
  pub lock_engine : Engine
  pub broker : Broker
  pub tags : TagIndex

-- What happens beside the calls: a hook, by its number, with a key and perhaps a value, or a
-- goroutine that sends a request to an address.
pub data Effect : Type 0 where
  calls : ℕ → Bytes → Effect
  calls_with : ℕ → Bytes → Bytes → Effect
  spawns : Bytes → Request → Effect

pub data CacheError : Type 0 where
  err_key_empty : CacheError
  err_shutdown : CacheError
  err_serialization_failed : CacheError
  err_remote : CallError → CacheError
  err_store : CacheError
  err_computed : CacheError
  err_unreadable : CacheError
  err_lock_not_acquired : CacheError
  err_lock_not_held : CacheError
