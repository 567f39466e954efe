-- ===== src/Store/Routing.antt =====
-- How store_memory.go places keys: a key always reaches one shard, and a call leaves the others.
use cache_grid.Base.{
  ℕ, ◌<◌, ◌≡◌, ◌≢◌, Bytes, some, arith, All, All-set, All-get_elem?, All-replicate, get_elem?_of_lt,
  get_elem?-set_self, get_elem?-set_ne, set as set_at, length, length-set, length-replicate,
}
use cache_grid.Base.Int.{ℤ}
use cache_grid.Base.Bits.{bit_and-le}
use cache_grid.Shard.State.{Shard, new_shard}
use cache_grid.Shard.Valid
use cache_grid.Store.Fnv.{fnv32a}
use cache_grid.Store.Memory.{MemoryStore, new_memory_store, shard_index, get_shard, on_shard}

pub record IsValid (m : MemoryStore) : Type 0 where
  pub shards : All Valid.IsValid m.shards
  pub covered : m.mask < length m.shards

-- With at least one shard a new store is valid, also where the mask is cut off at 2³².
pub new_memory_store-IsValid :
    (n : ℕ) (per_shard : ℤ) → 0 < n → IsValid (new_memory_store n per_shard)
unfolding new_memory_store
new_memory_store-IsValid n per_shard pos = record {
  shards = All-replicate Valid.IsValid n (new_shard per_shard) (Valid.new_shard-IsValid per_shard);
  covered = omega (arith, length-replicate n (new_shard per_shard));
}

module _ (m : MemoryStore) (v : IsValid m) where
  shard_index-lt : (key : Bytes) → shard_index m key < length m.shards
  unfolding shard_index
  shard_index-lt key = omega (arith, bit_and-le (fnv32a key) m.mask, v.covered)

  -- On a valid store `getShard` never indexes out of range, and the shard it returns is valid.
  pub get_shard_total : (key : Bytes) → (s : Shard) × (get_shard m key ≡ some s) × Valid.IsValid s
  unfolding get_shard
  get_shard_total key =
      let (s, found) = get_elem?_of_lt m.shards (shard_index m key) (shard_index-lt key) in
      (s, found, All-get_elem? Valid.IsValid m.shards (shard_index m key) v.shards found)

  -- A method of one shard that keeps that shard valid.
  pub on_shard_lem {ℓ} :
      {R : Type ℓ} (key : Bytes) (method : Shard → Shard × R) (s : Shard)
      → get_shard m key ≡ some s
      → on_shard m key method
        ≡ some
            (record m { shards = set_at m.shards (shard_index m key) (method s).0 }, (method s).1)
  unfolding on_shard
  on_shard_lem key method s found = rw (found, on_shard)

  pub set_at-IsValid :
      (key : Bytes) (s : Shard)
      → Valid.IsValid s
      → IsValid (record m { shards = set_at m.shards (shard_index m key) s })
  set_at-IsValid key s vs = record {
    shards = All-set Valid.IsValid m.shards (shard_index m key) s v.shards vs;
    covered = omega (arith, length-set m.shards (shard_index m key) s, v.covered);
  }

  pub get_shard-set_at :
      (key : Bytes) (s : Shard)
      → get_shard (record m { shards = set_at m.shards (shard_index m key) s }) key ≡ some s
  unfolding get_shard shard_index
  get_shard-set_at key s = get_elem?-set_self m.shards _ s (shard_index-lt key)

-- A shard that another index names is left alone.
pub get_shard-set_at_ne :
    (m : MemoryStore) (key other : Bytes) (s : Shard)
    → shard_index m key ≢ shard_index m other
    → get_shard (record m { shards = set_at m.shards (shard_index m key) s }) other
      ≡ get_shard m other
unfolding get_shard shard_index
get_shard-set_at_ne m key other s ne = get_elem?-set_ne m.shards _ _ s ne

pub get_shard-IsValid :
    (m : MemoryStore) (key : Bytes) {s : Shard}
    → IsValid m
    → get_shard m key ≡ some s
    → Valid.IsValid s
unfolding get_shard
get_shard-IsValid m key v found =
    All-get_elem? Valid.IsValid m.shards (shard_index m key) v.shards found
