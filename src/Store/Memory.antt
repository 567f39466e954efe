-- ===== src/Store/Memory.antt =====
-- `MemoryStore` of store_memory.go. An index out of range panics in Go: `none`.
use Prim.Native.Nat.{bit_and}
use cache_grid.Base.{
  ℕ, ◌+◌, ◌-◌, ◌%◌, ◌^◌, Bytes, List, [], ◌∷◌, ◌++◌, map, Option, none, some, Bool, get_elem?,
  set as set_at, replicate,
}
use cache_grid.Base.Int.{ℤ}
use cache_grid.Shard.Codec.{Msgpack}
use cache_grid.Shard.State.{Shard, Fired, new_shard}
use cache_grid.Shard.Ops
use cache_grid.Store.Fnv.{fnv32a}

pub record MemoryStore : Type 0 where
  pub shards : List Shard
  pub mask : ℕ

-- `mask` is `uint32(numShards - 1)`.
unfoldable pub new_memory_store : ℕ → ℤ → MemoryStore
new_memory_store num_shards per_shard_max_bytes = record {
  shards = replicate num_shards (new_shard per_shard_max_bytes);
  mask = (num_shards + 2 ^ 32 - 1) % 2 ^ 32;
}

unfoldable pub shard_index : MemoryStore → Bytes → ℕ
shard_index m key = bit_and (fnv32a key) m.mask

unfoldable pub get_shard : MemoryStore → Bytes → Option Shard
get_shard m key = get_elem? m.shards (shard_index m key)

-- A method of the shard of the key, through the pointer that `getShard` returns.
unfoldable pub on_shard {ℓ} :
    {R : Type ℓ} → MemoryStore → Bytes → (Shard → Shard × R) → Option (MemoryStore × R)
on_shard m key method = elim (get_shard m key) [
  | none ↦ none
  | some s ↦
      let (s', r) = method s in
      some (record m { shards = set_at m.shards (shard_index m key) s' }, r)
]

unfoldable pub get : MemoryStore → Bytes → ℕ → Option (MemoryStore × Option Bytes)
unfolding on_shard
get m key now = on_shard m key (λ s. Ops.get s key now)

unfoldable pub set : MemoryStore → Bytes → Bytes → ℤ → ℕ → Option (MemoryStore × List Fired)
unfolding on_shard
set m key value ttl now = on_shard m key (λ s. Ops.set s key value ttl now)

unfoldable pub delete : MemoryStore → Bytes → Option (MemoryStore × Bool)
unfolding on_shard
delete m key = on_shard m key (λ s. Ops.delete s key)

-- Here nothing happens between the two sections of `Exists` and of `TTL`.
unfoldable pub exists : MemoryStore → Bytes → ℕ → ℕ → Option (MemoryStore × Bool)
unfolding on_shard
exists m key t₁ t₂ = on_shard m key (λ s. Ops.exists s s key t₁ t₂)

unfoldable pub ttl : MemoryStore → Bytes → ℕ → ℕ → Option (MemoryStore × ℤ)
unfolding on_shard
ttl m key t₁ t₂ = on_shard m key (λ s. Ops.ttl s s key t₁ t₂)

unfoldable pub incr :
    Msgpack
    → MemoryStore
    → Bytes
    → ℕ
    → ℤ
    → ℕ
    → ℕ
    → ℕ
    → Option (MemoryStore × (Option ℕ × List Fired))
unfolding on_shard
incr c m key delta default_ttl t₁ t₂ t₃ = on_shard m key λ s.
    let (s', result, fired) = Ops.incr c s key delta default_ttl t₁ t₂ t₃ in (s', (result, fired))

-- Every shard reads the clock for itself.
unfoldable pub sweep_shards : List Shard → List ℕ → List Shard × ℕ × List Fired
sweep_shards [] clock = ([], 0, [])
sweep_shards (s ∷ ss) [] = (s ∷ ss, 0, [])
sweep_shards (s ∷ ss) (now ∷ clock) =
    let (s', count, fired) = Ops.delete_expired s now in
    let (ss', total, more) = sweep_shards ss clock in (s' ∷ ss', count + total, fired ++ more)

unfoldable pub delete_expired : MemoryStore → List ℕ → MemoryStore × ℕ × List Fired
unfolding sweep_shards
delete_expired m clock =
    let (shards, total, fired) = sweep_shards m.shards clock in
    (record m { shards = shards }, total, fired)

unfoldable pub sum_len : List Shard → ℕ
sum_len [] = 0
sum_len (s ∷ ss) = Ops.len s + sum_len ss

unfoldable pub len : MemoryStore → ℕ
unfolding sum_len
len m = sum_len m.shards

unfoldable pub set_on_evict : MemoryStore → Bool → MemoryStore
set_on_evict m b = record m { shards = map {A = Shard} (λ s. record s { on_evict = b }) m.shards }

unfoldable pub set_on_expire : MemoryStore → Bool → MemoryStore
set_on_expire m b = record m { shards = map {A = Shard} (λ s. record s { on_expire = b }) m.shards }
