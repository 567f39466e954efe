-- ===== src/Command/Env.antt =====
-- The configuration that main reads from the environment. `env` is `os.Getenv`, and
-- `parse_duration` is `time.ParseDuration`.
use cache_grid.Base.{
  Bytes, Bytes-discrete, List, [], ◌∷◌, Option, none, some, ite, if◌then◌else◌, codes,
}
use cache_grid.Base.Int.{ℤ, pos}
use cache_grid.Config.Options.{
  Mode, partitioned, replicated, near_cache, StorageMode, memory, disk, Config, default_config,
  second,
}
use cache_grid.Facade.Ops.{is_empty}
use cache_grid.Http.Text.{atoi, split_commas}

unfoldable pub env_str : (Bytes → Bytes) → Bytes → Bytes → Bytes
env_str env key fallback = if is_empty (env key) then fallback else env key

unfoldable pub env_int : (Bytes → Bytes) → Bytes → ℤ → ℤ
env_int env key fallback =
    if is_empty (env key) then fallback else elim (atoi (env key)) [ some n ↦ n | none ↦ fallback ]

unfoldable pub env_duration : (Bytes → Option ℤ) → (Bytes → Bytes) → Bytes → ℤ → ℤ
env_duration parse_duration env key fallback =
    if is_empty (env key)
    then fallback
    else elim (parse_duration (env key)) [ some d ↦ d | none ↦ fallback ]

unfoldable pub storage_mode_of : Bytes → StorageMode
storage_mode_of text = ite (Bytes-discrete text (codes "disk")) disk memory

unfoldable pub mode_of : Bytes → Mode
mode_of text =
    ite (Bytes-discrete text (codes "replicated")) replicated
      (ite (Bytes-discrete text (codes "nearcache")) near_cache partitioned)

unfoldable pub mode_name : Mode → Bytes
mode_name replicated = codes "replicated"
mode_name near_cache = codes "nearcache"
mode_name partitioned = codes "partitioned"

unfoldable pub storage_mode_name : StorageMode → Bytes
storage_mode_name disk = codes "disk"
storage_mode_name memory = codes "memory"

-- A path is read in disk mode alone.
unfoldable pub disk_path_of : (Bytes → Bytes) → StorageMode → Bytes
unfolding env_str
disk_path_of env disk = env_str env (codes "CACHEGRID_DISK_PATH") (codes "./cachegrid-data")
disk_path_of env memory = default_config.disk_path

-- The seeds, if any are given.
unfoldable pub seeds_of : Bytes → List Bytes
seeds_of [] = []
seeds_of (c ∷ seeds) = split_commas (c ∷ seeds)

unfoldable pub main_config : (Bytes → Option ℤ) → (Bytes → Bytes) → Config
unfolding env_str env_int env_duration storage_mode_of mode_of disk_path_of seeds_of
main_config parse_duration env =
    let storage = storage_mode_of (env_str env (codes "CACHEGRID_STORAGE_MODE") (codes "memory")) in
    record default_config {
      num_shards = env_int env (codes "CACHEGRID_SHARDS") (pos 256);
      max_memory_mb = env_int env (codes "CACHEGRID_MAX_MEMORY_MB") (pos 0);
      default_ttl = env_duration parse_duration env (codes "CACHEGRID_DEFAULT_TTL") (pos 0);
      sweeper_interval =
          env_duration parse_duration env (codes "CACHEGRID_SWEEPER_INTERVAL") second;
      node_name = env_str env (codes "CACHEGRID_NODE_NAME") [];
      listen_addr = env_str env (codes "CACHEGRID_LISTEN_ADDR") [];
      grpc_port = env_int env (codes "CACHEGRID_RPC_PORT") (pos 7947);
      http_port = env_int env (codes "CACHEGRID_HTTP_PORT") (pos 6380);
      virtual_nodes = env_int env (codes "CACHEGRID_VIRTUAL_NODES") (pos 150);
      storage_mode = storage;
      disk_path = disk_path_of env storage;
      peers = seeds_of (env_str env (codes "CACHEGRID_SEEDS") []);
      mode = mode_of (env_str env (codes "CACHEGRID_MODE") (codes "partitioned"));
    }
