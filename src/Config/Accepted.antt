-- ===== src/Config/Accepted.antt =====
-- What `validate` of config.go guarantees.
use cache_grid.Base.{ℕ, suc, ◌<◌, ◌≤◌, ◌*◌}
use cache_grid.Base.Int.{pos_part}
use cache_grid.Store.Routing
use cache_grid.Config.Options.{Config}

-- The bytes that are asked for.
abbrev pub memory_bytes : Config → ℕ
memory_bytes c = pos_part c.max_memory_mb * 1024 * 1024

-- The share of each shard, rounded down.
abbrev pub IsShare : ℕ → ℕ → ℕ → Type 0
IsShare total n share = (n * share ≤ total) × (total < n * suc share)
