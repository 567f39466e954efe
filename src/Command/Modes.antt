-- ===== src/Command/Modes.antt =====
-- What main makes of an environment.
use mathlib.Core.List.{cons-ne-nil}
use cache_grid.Base.{
  ℕ, ◌≡◌, ◌≢◌, refl, Bytes, Bytes-discrete, [], ◌∷◌, Option, codes, if◌then◌else◌, arith,
}
use cache_grid.Base.Int.{ℤ}
use cache_grid.Config.Options.{
  Mode, replicated, near_cache, partitioned, validate_memory, StorageMode, Config, default_config,
  memory, disk, validate, disk_path_missing, with_interval, with_shards,
}
use cache_grid.Facade.Ops.{is_empty}
use cache_grid.Command.Env.{
  env_str, env_int, env_duration, storage_mode_of, mode_of, mode_name, storage_mode_name, seeds_of,
  disk_path_of, main_config,
}

-- The names that main prints of the modes are those that it reads.
pub mode_of-mode_name : (m : Mode) → mode_of (mode_name m) ≡ m
unfolding mode_of mode_name Bytes-discrete
mode_of-mode_name replicated = refl
mode_of-mode_name near_cache = refl
mode_of-mode_name partitioned = refl

pub storage_mode_of-storage_mode_name :
    (s : StorageMode) → storage_mode_of (storage_mode_name s) ≡ s
unfolding storage_mode_of storage_mode_name Bytes-discrete
storage_mode_of-storage_mode_name disk = refl
storage_mode_of-storage_mode_name memory = refl

-- With nothing set, main starts with the default configuration.
pub main_config_unset :
    (parse_duration : Bytes → Option ℤ) → main_config parse_duration (λ key. []) ≡ default_config
unfolding main_config env_str env_int env_duration storage_mode_of mode_of disk_path_of seeds_of
    is_empty default_config Bytes-discrete
main_config_unset parse_duration = refl

env_str_there :
    (env : Bytes → Bytes) (key : Bytes) (c : ℕ) (fallback : Bytes)
    → env_str env key (c ∷ fallback) ≢ []
unfolding env_str is_empty
env_str_there env key c fallback = there (env key)
  where
    there : (v : Bytes) → (if is_empty v then c ∷ fallback else v) ≢ []
    there [] = cons-ne-nil c fallback
    there (x ∷ v) = cons-ne-nil x v

validate_memory_path : (c : Config) → validate_memory c ≢ disk_path_missing
unfolding validate_memory
validate_memory_path c = ground arith

validate_path :
    (c : Config) → (c.storage_mode ≡ disk → c.disk_path ≢ []) → validate c ≢ disk_path_missing
unfolding validate
validate_path c given missing =
    ground (arith, given, missing, validate_memory_path (with_shards (with_interval c)))

disk_path_there :
    (env : Bytes → Bytes) (mode : StorageMode) → mode ≡ disk → disk_path_of env mode ≢ []
unfolding disk_path_of
disk_path_there env disk e =
    env_str_there env (codes "CACHEGRID_DISK_PATH") b'.' (codes "/cachegrid-data")
disk_path_there env memory e = absurd (cc)

-- Whatever the environment, `New` does not refuse the configuration of main for want of a path.
pub main_config_path :
    (parse_duration : Bytes → Option ℤ) (env : Bytes → Bytes)
    → validate (main_config parse_duration env) ≢ disk_path_missing
unfolding main_config
main_config_path parse_duration env =
    validate_path (main_config parse_duration env) λ is_disk. disk_path_there env _ is_disk
