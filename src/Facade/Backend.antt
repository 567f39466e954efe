-- ===== src/Facade/Backend.antt =====
-- store_memory.go as the `Store` of cache.go.
use cache_grid.Base.{
  ℕ, ◌≡◌, ◌∙◌, sym, ap, subst, Bytes, [], map, Option, none, some, false, arith, Option-cases, inl,
  inr,
}
use mathlib.Core.Option.{some-injective}
use cache_grid.Base.Int.{pos}
use cache_grid.Shard.Codec.{Msgpack}
use cache_grid.Shard.State.{Shard}
use cache_grid.Shard.Reads.{Fits}
use cache_grid.Store.Memory
use cache_grid.Store.Memory.{MemoryStore, get_shard}
use cache_grid.Store.Routing.{IsValid}
use cache_grid.Store.Laws.{read, read-set}
use cache_grid.Facade.Parts.{Store}
use cache_grid.Facade.Reads.{ReadsBack}

-- A panic is answered as a miss. The routing of a valid store has none.
unfoldable pub or_miss : {R : Type 0} → MemoryStore → R → Option (MemoryStore × R) → MemoryStore × R
or_miss m miss none = (m, miss)
or_miss m miss (some r) = r

abbrev pub memory : Msgpack → Store
memory c = record {
  S = MemoryStore;
  get = λ m key now. or_miss m none (Memory.get m key now);
  set = λ m key raw ttl now. or_miss m [] (Memory.set m key raw ttl now);
  delete = λ m key. or_miss m false (Memory.delete m key);
  exists = λ m key now. or_miss m false (Memory.exists m key now now);
  ttl = λ m key now. or_miss m (pos 0) (Memory.ttl m key now now);
  incr = λ m key delta ttl now.
      let (m', r) = or_miss m (none, []) (Memory.incr c m key delta ttl now now now) in
      (m', r.0, r.1);
  delete_expired = λ m now. Memory.delete_expired m (map (λ _. now) m.shards);
  len = Memory.len;
}

-- A valid store admits an entry that fits the limit of its shard.
abbrev pub Admits : MemoryStore → Bytes → Bytes → Type 0
Admits m key raw = IsValid m × ((s : Shard) × (get_shard m key ≡ some s) × Fits s.max_size key raw)

get-or_miss :
    (m : MemoryStore) (key : Bytes) (now : ℕ) (found : Option Bytes)
    → read m key now ≡ some found
    → (or_miss m none (Memory.get m key now)).1 ≡ found
unfolding or_miss
get-or_miss m key now found h = elim (Option-cases (Memory.get m key now)) [
  | inl e ↦ absurd (ground arith)
  | inr (r, e) ↦ ground arith
]

-- The memory store reads back what it admits.
pub memory-ReadsBack : (c : Msgpack) → ReadsBack (memory c) Admits
unfolding or_miss
memory-ReadsBack c = record {
  get_set = λ m key raw ttl now later (v, (s, found, fits)) time.
      let (m', fired, stored, _, back) =
        read-set m key raw ttl now later v
          (λ t there.
            subst (λ t. Fits t.max_size key raw) (some-injective _ _ (sym found ∙ there)) fits)
          time in
      ap (λ r. (or_miss r.0 none (Memory.get r.0 key later)).1) (ap (or_miss m []) stored)
      ∙ get-or_miss m' key later (some raw) back;
}
