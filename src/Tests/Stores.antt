-- ===== src/Tests/Stores.antt =====
-- Runs of store_memory.go, and its theorems at concrete inputs.
use cache_grid.Base.{◌≡◌, refl, subst, List, [], ◌∷◌, some, arith}
use mathlib.Core.Option.{some-injective}
use cache_grid.Base.Int.{pos}
use cache_grid.Shard.State.{Shard, Fired, new_shard}
use cache_grid.Shard.Reads.{Fits}
use cache_grid.Shard.Valid
use cache_grid.Store.Fnv.{fnv32a, fnv_loop}
use cache_grid.Store.Memory
use cache_grid.Store.Memory.{
  MemoryStore, new_memory_store, shard_index, get_shard, on_shard, sum_len, sweep_shards,
}
use cache_grid.Store.Routing.{IsValid, new_memory_store-IsValid}
use cache_grid.Store.Laws.{read, KeptOrEvicted, read-set, read-set_ne}
use cache_grid.Tests.Data.{
  key_a, key_b, value_2, shard_code, two_items, two_items-IsValid, key_a-ne-key_b,
}

unfoldable pub store_code : Unit {0}
unfolding shard_code fnv32a fnv_loop new_memory_store shard_index get_shard on_shard sum_len
    sweep_shards Memory.get Memory.set Memory.delete Memory.delete_expired Memory.len
store_code = tt

-- Two shards; `key_a` falls to the first.
abbrev pub store : MemoryStore
store = record { shards = two_items ∷ new_shard (pos 400) ∷ []; mask = 1 }

pub store-IsValid : IsValid store
store-IsValid = record {
  shards = (two_items-IsValid, (Valid.new_shard-IsValid (pos 400), tt));
  covered = omega arith;
}

fnv_run : (fnv32a [] ≡ 2166136261) × (fnv32a key_a ≡ 3826002220)
unfolding store_code
fnv_run = (refl, refl)

new_memory_store-IsValid_example : IsValid (new_memory_store 4 (pos 400))
new_memory_store-IsValid_example = new_memory_store-IsValid 4 (pos 400) (omega arith)

-- An entry of a key of one byte has less than 400 bytes.
key_a-Fits : (s : Shard) → get_shard store key_a ≡ some s → Fits s.max_size key_a value_2
unfolding store_code
key_a-Fits s found =
    subst (λ t. Fits t.max_size key_a value_2) (some-injective _ _ found) λ h. omega arith

read-set_example :
    (m' : MemoryStore) × (fired : List Fired) × (Memory.set store key_a value_2 (pos 7) 12
      ≡ some (m', fired))
    × IsValid m'
    × (read m' key_a 19 ≡ some (some value_2))
unfolding store_code
read-set_example =
    read-set store key_a value_2 (pos 7) 12 19 store-IsValid key_a-Fits (λ h. omega arith)

read-set_ne_example :
    (m' : MemoryStore) × (fired : List Fired) × (Memory.set store key_a value_2 (pos 7) 12
      ≡ some (m', fired))
    × IsValid m'
    × KeptOrEvicted store m' key_a key_b 13
read-set_ne_example =
    read-set_ne store key_a value_2 key_b (pos 7) 12 13 store-IsValid key_a-ne-key_b

-- At 16 one entry of the first shard has expired.
sweep_run : (Memory.delete_expired store (16 ∷ 16 ∷ [])).1 ≡ 1
unfolding store_code
sweep_run = refl
