-- ===== src/Config/Options.antt =====
-- `Config` and `validate` of config.go, `StorageMode` of store.go, and the choice of the memory
-- store in `New` of cache.go. A mode that is none of the constants counts as the first one.
use Prim.Native.Nat.{bit_and}
use cache_grid.Base.{◌*◌, ◌-◌, Bytes, List, [], ◌==◌, not, if◌then◌else◌}
use cache_grid.Base.Int.{ℤ, pos, pos_part, ltb_ℤ, wrap, quotient}
use cache_grid.Store.Memory.{MemoryStore, new_memory_store}

pub data StorageMode : Type 0 where
  memory : StorageMode
  disk : StorageMode

pub data Mode : Type 0 where
  partitioned : Mode
  replicated : Mode
  near_cache : Mode

pub record Config : Type 0 where
  pub num_shards : ℤ
  pub max_memory_mb : ℤ
  pub default_ttl : ℤ
  pub sweeper_interval : ℤ
  pub storage_mode : StorageMode
  pub disk_path : Bytes
  pub listen_addr : Bytes
  pub peers : List Bytes
  pub mode : Mode
  pub node_name : Bytes
  pub grpc_port : ℤ
  pub http_port : ℤ
  pub virtual_nodes : ℤ

-- `time.Second` in nanoseconds.
abbrev pub second : ℤ
second = pos 1000000000

unfoldable pub default_config : Config
default_config = record {
  num_shards = pos 256;
  max_memory_mb = pos 0;
  default_ttl = pos 0;
  sweeper_interval = second;
  storage_mode = memory;
  disk_path = [];
  listen_addr = [];
  peers = [];
  mode = partitioned;
  node_name = [];
  grpc_port = pos 7947;
  http_port = pos 6380;
  virtual_nodes = pos 150;
}

-- The configuration of `NewDisk`.
unfoldable pub disk_config : Bytes → Config
unfolding default_config
disk_config path = record default_config { storage_mode = disk; disk_path = path }

pub data Validated : Type 0 where
  accepted : Config → Validated
  disk_path_missing : Validated
  not_power_of_two : ℤ → Validated
  negative_memory : ℤ → Validated

-- The default interval of the sweeper.
unfoldable pub with_interval : Config → Config
with_interval c =
    if ltb_ℤ (pos 0) c.sweeper_interval then c else record c { sweeper_interval = second }

unfoldable pub with_shards : Config → Config
with_shards c = if ltb_ℤ (pos 0) c.num_shards then c else record c { num_shards = pos 256 }

-- The default case of the switch, where the number of shards is positive.
unfoldable pub validate_memory : Config → Validated
validate_memory c =
    let n = pos_part c.num_shards in
    if not (bit_and n (n - 1) == 0)
    then not_power_of_two c.num_shards
    else if ltb_ℤ c.max_memory_mb (pos 0)
    then negative_memory c.max_memory_mb
    else accepted c

unfoldable pub validate : Config → Validated
unfolding with_interval with_shards validate_memory
validate c = elim c.storage_mode [
  | disk ↦ elim c.disk_path [ [] ↦ disk_path_missing | _ ↦ accepted (with_interval c) ]
  | memory ↦ validate_memory (with_shards (with_interval c))
]

-- The limit of each shard, from a product that wraps around, and the memory store of `New`.
unfoldable pub per_shard_max : Config → ℤ
unfolding wrap quotient
per_shard_max c =
    if ltb_ℤ (pos 0) c.max_memory_mb
    then quotient (wrap (pos_part c.max_memory_mb * 1024 * 1024)) (pos_part c.num_shards)
    else pos 0

unfoldable pub memory_store : Config → MemoryStore
unfolding per_shard_max
memory_store c = new_memory_store (pos_part c.num_shards) (per_shard_max c)
