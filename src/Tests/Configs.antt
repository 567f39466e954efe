-- ===== src/Tests/Configs.antt =====
-- config.go at concrete configurations.
use cache_grid.Base.{◌^◌, ◌≡◌, refl, []}
use cache_grid.Base.Int.{pos, negsuc, wrap, quotient}
use cache_grid.Store.Routing
use cache_grid.Config.Options.{
  Config, default_config, disk_config, accepted, disk_path_missing, not_power_of_two,
  negative_memory, validate, with_interval, with_shards, validate_memory, per_shard_max,
}

-- 64 shards of 1 MB.
abbrev small_config : Config
small_config = record default_config { num_shards = pos 64; max_memory_mb = pos 64 }

config_run :
    (validate default_config ≡ accepted default_config)
    × (validate (disk_config []) ≡ disk_path_missing)
    × (validate (record default_config { num_shards = pos 12 }) ≡ not_power_of_two (pos 12))
    × (validate (record default_config { max_memory_mb = negsuc 0 }) ≡ negative_memory (negsuc 0))
    × (validate (record default_config { num_shards = negsuc 4 }) ≡ accepted default_config)
unfolding default_config disk_config validate with_interval with_shards validate_memory
config_run = (refl, refl, refl, refl, refl)

-- One MB for 2²¹ shards is no limit, and 2⁴⁴ MB are none either, since the product wraps around.
unlimited_run :
    (per_shard_max (record default_config { num_shards = pos (2 ^ 21); max_memory_mb = pos 1 })
      ≡ pos 0)
    × (per_shard_max (record default_config { max_memory_mb = pos (2 ^ 44) }) ≡ pos 0)
unfolding default_config per_shard_max wrap quotient
unlimited_run = (refl, refl)
