-- ===== src/Store/Laws.antt =====
-- What store_memory.go lets its caller read back.
use cache_grid.Base.{
  ℕ, ◌+◌, ◌≡◌, ◌≢◌, ◌⊎◌, refl, sym, ◌∙◌, ap, inl, inr, Bytes, List, [], ◌∷◌, Option, none, some,
  true, arith, All, ℕ_discrete, set as set_at,
}
use mathlib.Core.Option
use cache_grid.Base.Int.{ℤ, pos, ltb_ℤ}
use cache_grid.Shard.State.{Shard, Fired}
use cache_grid.Shard.Ops
use cache_grid.Shard.Valid
use cache_grid.Shard.Reads
use cache_grid.Shard.Sweep.{delete_expired_lem}
use cache_grid.Store.Memory
use cache_grid.Store.Memory.{MemoryStore, shard_index, get_shard, on_shard, sum_len, sweep_shards}
use cache_grid.Store.Routing.{
  IsValid, get_shard_total, on_shard_lem, set_at-IsValid, get_shard-set_at, get_shard-set_at_ne,
  get_shard-IsValid,
}

-- The answer of `Get`: `none` is a panic, `some none` a miss.
abbrev pub read : MemoryStore → Bytes → ℕ → Option (Option Bytes)
read m key now = Option.map (λ p. p.1) (Memory.get m key now)

-- The store after `Set`, where it does not panic.
abbrev pub after_set : MemoryStore → Bytes → Bytes → ℤ → ℕ → Shard → MemoryStore
after_set m key value ttl now s = record m {
  shards = set_at m.shards (shard_index m key) (Ops.set s key value ttl now).0;
}

module _ (m : MemoryStore) (v : IsValid m) (key : Bytes) (s : Shard)
    (found : get_shard m key ≡ some s) where
  read_lem : (now : ℕ) → read m key now ≡ some (Ops.get s key now).1
  unfolding Memory.get
  read_lem now = rw (on_shard_lem m v key (λ s. Ops.get s key now) s found)

  pub set_lem :
      (value : Bytes) (ttl : ℤ) (now : ℕ)
      → Memory.set m key value ttl now
        ≡ some (after_set m key value ttl now s, (Ops.set s key value ttl now).1)
  unfolding Memory.set
  set_lem value ttl now = on_shard_lem m v key (λ s. Ops.set s key value ttl now) s found

  after_set-IsValid :
      (value : Bytes) (ttl : ℤ) (now : ℕ) → IsValid (after_set m key value ttl now s)
  after_set-IsValid value ttl now =
      set_at-IsValid m v key _ (
        Valid.Step-IsValid (Valid.set s key value ttl now)
          (get_shard-IsValid m key {s = s} v found))

  found_after :
      (value : Bytes) (ttl : ℤ) (now : ℕ)
      → get_shard (after_set m key value ttl now s) key ≡ some (Ops.set s key value ttl now).0
  found_after value ttl now = get_shard-set_at m v key (Ops.set s key value ttl now).0

-- On a valid store `Set` does not panic and leaves it valid, and `Get` of the key then answers
-- with the value until its lifetime has passed, if a positive limit of its shard admits the size
-- of the entry.
pub read-set :
    (m : MemoryStore) (key value : Bytes) (ttl : ℤ) (now later : ℕ)
    → IsValid m
    → ((s : Shard) → get_shard m key ≡ some s → Reads.Fits s.max_size key value)
    → Reads.InTime ttl now later
    → (m' : MemoryStore) × (fired : List Fired) × (Memory.set m key value ttl now
        ≡ some (m', fired))
      × IsValid m'
      × (read m' key later ≡ some (some value))
read-set m key value ttl now later v fits time =
    let (s, found, vs) = get_shard_total m v key in
    let v' = after_set-IsValid m v key s found value ttl now in
    (
      after_set m key value ttl now s,
      (Ops.set s key value ttl now).1,
      set_lem m v key s found value ttl now,
      v',
      read_lem _ v' key _ (found_after m v key s found value ttl now) later
          ∙ ap some (Reads.get-set s key value ttl now later vs (fits s found) time),
    )

same_shard :
    (m : MemoryStore) (key other : Bytes)
    → shard_index m key ≡ shard_index m other
    → get_shard m key ≡ get_shard m other
unfolding get_shard
same_shard m key other e = rw e

shard_index-after_set :
    (m : MemoryStore) (key value other : Bytes) (ttl : ℤ) (now : ℕ) (s : Shard)
    → shard_index (after_set m key value ttl now s) other ≡ shard_index m other
unfolding shard_index
shard_index-after_set m key value other ttl now s = refl

module _ (m : MemoryStore) (key value other : Bytes) (ttl : ℤ) (now later : ℕ) (s : Shard)
    (v : IsValid m) (found : get_shard m key ≡ some s) where
  read_same_shard :
      shard_index m key ≡ shard_index m other
      → (read m other later ≡ some (Ops.get s other later).1)
        × (read (after_set m key value ttl now s) other later
            ≡ some (Ops.get (Ops.set s key value ttl now).0 other later).1)
  read_same_shard same =
      let m' = after_set m key value ttl now s in
      let same' =
        shard_index-after_set m key value key ttl now s
        ∙ same
        ∙ sym (shard_index-after_set m key value other ttl now s) in
      (
        read_lem m v other s (sym (same_shard m key other same) ∙ found) later,
        read_lem m' (after_set-IsValid m v key s found value ttl now) other _
            (sym (same_shard m' key other same') ∙ found_after m v key s found value ttl now) later,
      )

  read_other_shard :
      shard_index m key ≢ shard_index m other
      → read (after_set m key value ttl now s) other later ≡ read m other later
  read_other_shard apart =
      let (t, there, _) = get_shard_total m v other in
      let left = get_shard-set_at_ne m key other (Ops.set s key value ttl now).0 apart in
      read_lem _ (after_set-IsValid m v key s found value ttl now) other t (left ∙ there) later
      ∙ sym (read_lem m v other t there later)

-- What became of another key: `Get` answers as before, or finds it evicted, from the shard of the
-- written key, which has a positive limit.
abbrev pub KeptOrEvicted : MemoryStore → MemoryStore → Bytes → Bytes → ℕ → Type 0
KeptOrEvicted m m' key other later =
    (read m' other later ≡ read m other later)
    ⊎ ((read m' other later ≡ some none)
        × (shard_index m key ≡ shard_index m other)
        × (s : Shard) × (get_shard m key ≡ some s)
        × (ltb_ℤ (pos 0) s.max_size ≡ true))

after_set-KeptOrEvicted :
    (m : MemoryStore) (key value other : Bytes) (ttl : ℤ) (now later : ℕ) (s : Shard)
    → IsValid m
    → get_shard m key ≡ some s
    → key ≢ other
    → KeptOrEvicted m (after_set m key value ttl now s) key other later
after_set-KeptOrEvicted m key value other ttl now later s v found ne =
    elim (ℕ_discrete (shard_index m key) (shard_index m other)) [
      | no apart ↦ inl (read_other_shard m key value other ttl now later s v found apart)
      | yes same ↦
          let (before, after) = read_same_shard m key value other ttl now later s v found same in
          elim (Reads.get-set_ne s key value other ttl now later
            (get_shard-IsValid m key {s = s} v found) ne) [
              | inl left ↦ inl (after ∙ ap some left ∙ sym before)
              | inr (gone, limited) ↦ inr (after ∙ ap some gone, same, s, found, limited)
            ]
    ]

-- On a valid store `Set` does not panic and leaves it valid. What `Get` answers for another key it
-- leaves too, or it has evicted that key, which happens only where both keys have the same shard
-- and its limit is positive.
pub read-set_ne :
    (m : MemoryStore) (key value other : Bytes) (ttl : ℤ) (now later : ℕ)
    → IsValid m
    → key ≢ other
    → (m' : MemoryStore) × (fired : List Fired) × (Memory.set m key value ttl now
        ≡ some (m', fired))
      × IsValid m'
      × KeptOrEvicted m m' key other later
read-set_ne m key value other ttl now later v ne =
    let (s, found, _) = get_shard_total m v key in
    (
      after_set m key value ttl now s,
      (Ops.set s key value ttl now).1,
      set_lem m v key s found value ttl now,
      after_set-IsValid m v key s found value ttl now,
      after_set-KeptOrEvicted m key value other ttl now later s v found ne,
    )

-- A sweep of the whole store returns the number of entries by which it shrinks.
sum_len-sweep_shards :
    (ss : List Shard) (clock : List ℕ)
    → All Valid.IsValid ss
    → (sweep_shards ss clock).1 + sum_len (sweep_shards ss clock).0 ≡ sum_len ss
unfolding sweep_shards sum_len
sum_len-sweep_shards [] clock a = omega arith
sum_len-sweep_shards (s ∷ ss) [] a = omega arith
sum_len-sweep_shards (s ∷ ss) (now ∷ clock) a =
    omega (arith, (delete_expired_lem s now [] a.0.consistent).2, sum_len-sweep_shards ss clock a.1)

-- A sweep of a valid store returns the number of entries by which it shrinks, whatever each shard
-- reads of the clock.
pub len-delete_expired :
    (m : MemoryStore) (clock : List ℕ)
    → IsValid m
    → (Memory.delete_expired m clock).1 + Memory.len (Memory.delete_expired m clock).0
      ≡ Memory.len m
unfolding Memory.delete_expired Memory.len
len-delete_expired m clock v = sum_len-sweep_shards m.shards clock v.shards
