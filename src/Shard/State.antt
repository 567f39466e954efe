-- ===== src/Shard/State.antt =====
-- The state of internal/cache/shard.go, and the two helpers that run under its lock.
use cache_grid.Base.{
  ℕ, zero, suc, Bytes, Bytes-discrete, List, [], ◌∷◌, ◌++◌, none, some, Bool, true, false, ◌&&◌,
  ltb, if◌then◌else◌,
}
use cache_grid.Base.Int.{ℤ, pos, ltb_ℤ, ◌-ℤ◌}
use cache_grid.Base.GoMap.{delete}
use cache_grid.Shard.Entry.{Entry}
use cache_grid.Shard.Lru.{LruList, new_lru_list, remove, remove_oldest, length}

-- `on_evict` and `on_expire` say whether a callback is set.
pub record Shard : Type 0 where
  pub items : List (Bytes × Entry)
  pub lru : LruList
  pub size : ℤ
  pub max_size : ℤ
  pub on_evict : Bool
  pub on_expire : Bool

-- A call of a callback, by its two arguments.
abbrev pub Fired : Type 0
Fired = Bytes × Bytes

unfoldable pub new_shard : ℤ → Shard
unfolding new_lru_list
new_shard max_size = record {
  items = [];
  lru = new_lru_list;
  size = pos 0;
  max_size = max_size;
  on_evict = false;
  on_expire = false;
}

unfoldable pub remove_locked : Shard → Bytes → Entry → Shard
remove_locked s key e = record s {
  lru = remove s.lru e.element;
  size = s.size -ℤ pos e.size;
  items = delete Bytes-discrete key s.items;
}

-- The body of the loop of `evictLocked`.
unfoldable pub evict_oldest : Shard → Shard × List Fired
evict_oldest s =
    let (found, lru) = remove_oldest s.lru in
    elim found [
      | none ↦ (record s { lru = lru }, [])
      | some oldest ↦ (
        record s {
          lru = lru;
          size = s.size -ℤ pos oldest.size;
          items = delete Bytes-discrete oldest.key s.items;
        },
        if s.on_evict then (oldest.key, oldest.value) ∷ [] else [],
      )
    ]

unfoldable pub over_limit : Shard → Bool
over_limit s = ltb_ℤ s.max_size s.size && ltb 0 (length s.lru)

-- The loop of `evictLocked`. Each round takes one entry off the list, so its length is fuel enough.
unfoldable pub evict_loop : ℕ → Shard → Shard × List Fired
evict_loop zero s = (s, [])
evict_loop (suc fuel) s = elim (over_limit s) [
  | false ↦ (s, [])
  | true ↦
      let (s', fired) = evict_oldest s in
      let (s'', more) = evict_loop fuel s' in (s'', fired ++ more)
]

unfoldable pub evict_locked : Shard → Shard × List Fired
evict_locked s = if ltb_ℤ (pos 0) s.max_size then evict_loop (length s.lru) s else (s, [])
