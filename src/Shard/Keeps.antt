-- ===== src/Shard/Keeps.antt =====
-- Every critical section of internal/cache/shard.go keeps the map, the LRU list and the size
-- together.
use cache_grid.Base.{
  ℕ, suc, ◌≡◌, refl, sym, ◌∙◌, Bytes, Bytes-discrete, List, [], ◌∷◌, Option, none, some, lookup,
  All-map, arith, Option-cases, Bool-cases, inl, inr, zero, if◌then◌else◌,
}
use cache_grid.Base.Int.{pos-+ℤ}
use cache_grid.Base.GoMap.{delete, insert, lookup-delete_self, delete-Unique, delete_absent}
use cache_grid.Shard.Entry.{Entry, estimate_size}
use cache_grid.Shard.Lru.{
  LruList, find_element, push_front, remove, move_to_front, remove_oldest, split_back,
}
use cache_grid.Shard.State.{
  Shard, remove_locked, evict_oldest, evict_loop, evict_locked, over_limit,
}
use cache_grid.Shard.Lru
use cache_grid.Shard.Ops.{find, put_front, forget_existing}
use cache_grid.Shard.Order.{
  find_key, remove_key, total, find_key-key, find_key-remove_key, find_element-of_find_key,
  remove_key-Distinct, total-remove_key, length-remove_key, All-remove_key, All-find_key,
  find_element_fresh, find_element-remove_key_self, split_back-remove_key, unlink-remove_key,
}
use cache_grid.Shard.Consistent.{
  IsConsistent, Older, IsMeasured, remove_locked-IsConsistent, found_in_list,
}

-- An entry that is used moves to the front.
module _ (s : Shard) (key : Bytes) {e : Entry} (v : IsConsistent s)
    (found : find s key ≡ some e) where
  pub move_to_front_lem :
      move_to_front s.lru e.element ≡ record s.lru { elems = e ∷ remove_key key s.lru.elems }
  unfolding move_to_front
  move_to_front_lem =
      let listed = found_in_list s key v found in
      rw (find_element-of_find_key key s.lru.elems {e = e} v.distinct listed, move_to_front)
        (rw (unlink-remove_key key s.lru.elems {e = e} v.distinct listed))

  pub touch-IsConsistent : IsConsistent (record s { lru = move_to_front s.lru e.element })
  unfolding find_key total
  touch-IsConsistent =
      let listed = found_in_list s key v found in
      rw move_to_front_lem (record {
        linked = λ k. ground (
          arith,
          v.linked k,
          find_key-remove_key key k s.lru.elems,
          find_key-key key s.lru.elems {e = e},
          listed,
        );
        distinct = (
          ground (
            arith,
            find_key-remove_key e.key e.key s.lru.elems,
            find_key-key key s.lru.elems {e = e} listed,
          ),
          find_element-remove_key_self key s.lru.elems {e = e} v.distinct listed,
          remove_key-Distinct key s.lru.elems v.distinct,
        );
        fresh = (
          All-find_key (Older s.lru.next) key s.lru.elems {e = e} v.fresh listed,
          All-remove_key (Older s.lru.next) key s.lru.elems v.fresh,
        );
        measured = (
          All-find_key IsMeasured key s.lru.elems {e = e} v.measured listed,
          All-remove_key IsMeasured key s.lru.elems v.measured,
        );
        counted =
            ground (arith, v.counted, total-remove_key key s.lru.elems {e = e} v.distinct listed);
        unique = v.unique;
        same_length =
            ground
              (arith, v.same_length, length-remove_key key s.lru.elems {e = e} v.distinct listed);
      })

-- A new entry goes to the front under a key that is not there.
module _ (s : Shard) (key value : Bytes) (expires_at : Option ℕ) where
  pub put_front-IsConsistent :
      IsConsistent s → find s key ≡ none → IsConsistent (put_front s key value expires_at)
  unfolding put_front push_front find_key total insert lookup
  put_front-IsConsistent v absent = record {
    linked = λ k. ground (arith, v.linked k, kept);
    distinct = (
      sym (v.linked key) ∙ absent,
      find_element_fresh s.lru.next s.lru.elems v.fresh,
      v.distinct,
    );
    fresh = (omega arith, All-map s.lru.elems (λ e h. omega arith) v.fresh);
    measured = (refl, v.measured);
    counted = ground (arith, v.counted, pos-+ℤ (total s.lru.elems) (estimate_size key value));
    unique = (
      lookup-delete_self Bytes-discrete key s.items,
      delete-Unique Bytes-discrete key s.items v.unique,
    );
    same_length = ground (arith, kept, v.same_length);
  }
    where
      kept : delete Bytes-discrete key s.items ≡ s.items
      kept = delete_absent Bytes-discrete key s.items absent

-- What `Set` overwrites is as good as deleted first.
unfoldable pub drop_existing : Shard → Bytes → Shard
drop_existing s key = elim (find s key) [ none ↦ s | some e ↦ remove_locked s key e ]

pub drop_existing-IsConsistent :
    (s : Shard) (key : Bytes) → IsConsistent s → IsConsistent (drop_existing s key)
unfolding drop_existing
drop_existing-IsConsistent s key v = elim (Option-cases (find s key)) [
  | inl e ↦ rw (e, drop_existing) v
  | inr (old, e) ↦ rw (e, drop_existing) (remove_locked-IsConsistent s key {e = old} v e)
]

pub find-drop_existing : (s : Shard) (key : Bytes) → find (drop_existing s key) key ≡ none
unfolding drop_existing remove_locked
find-drop_existing s key = ground (arith, lookup-delete_self Bytes-discrete key s.items)

pub put_front-forget_existing :
    (s : Shard) (key value : Bytes) (expires_at : Option ℕ)
    → put_front (forget_existing s key) key value expires_at
      ≡ put_front (drop_existing s key) key value expires_at
unfolding put_front forget_existing drop_existing remove_locked insert
put_front-forget_existing s key value expires_at = ground (
  arith,
  delete_absent Bytes-discrete key (delete Bytes-discrete key s.items)
      (lookup-delete_self Bytes-discrete key s.items),
)

-- A round of the eviction loop on a list that splits: the oldest entry is given up.
module _ (s : Shard) {last : Entry} {rest : List Entry} (v : IsConsistent s)
    (split : split_back s.lru.elems ≡ some (last, rest)) where
  pub oldest_found : find s last.key ≡ some last
  oldest_found = v.linked last.key ∙ (split_back-remove_key s.lru.elems v.distinct split).0

  pub evict_oldest_lem :
      evict_oldest s
      ≡ (remove_locked s last.key last, if s.on_evict then (last.key, last.value) ∷ [] else [])
  unfolding evict_oldest remove_oldest remove_locked remove
  evict_oldest_lem = ground (
    arith,
    split_back-remove_key s.lru.elems {last = last} {rest = rest} v.distinct split,
    unlink-remove_key last.key s.lru.elems {e = last} v.distinct,
  )

  pub evict_oldest-elems : (evict_oldest s).0.lru.elems ≡ rest
  unfolding evict_oldest remove_oldest
  evict_oldest-elems = ground arith

-- On an empty list it has nothing to do.
pub evict_oldest_empty : (s : Shard) → split_back s.lru.elems ≡ none → evict_oldest s ≡ (s, [])
unfolding evict_oldest remove_oldest
evict_oldest_empty s e = ground arith

pub evict_oldest-IsConsistent : (s : Shard) → IsConsistent s → IsConsistent (evict_oldest s).0
evict_oldest-IsConsistent s v = elim (Option-cases (split_back s.lru.elems)) [
  | inl e ↦ rw (evict_oldest_empty s e) v
  | inr ((last, rest), e) ↦ rw (evict_oldest_lem s {last = last} {rest = rest} v e) (
      remove_locked-IsConsistent s last.key {e = last} v
        (oldest_found s {last = last} {rest = rest} v e))
]

pub evict_loop-IsConsistent :
    (fuel : ℕ) (s : Shard) → IsConsistent s → IsConsistent (evict_loop fuel s).0
unfolding evict_loop
evict_loop-IsConsistent zero s v = v
evict_loop-IsConsistent (suc fuel) s v = elim (Bool-cases (over_limit s)) [
  | inl e ↦ rw (e, evict_loop) (evict_loop-IsConsistent fuel _ (evict_oldest-IsConsistent s v))
  | inr e ↦ rw (e, evict_loop) v
]

pub evict_locked-IsConsistent : (s : Shard) → IsConsistent s → IsConsistent (evict_locked s).0
unfolding evict_locked
evict_locked-IsConsistent s v = ground (arith, evict_loop-IsConsistent (Lru.length s.lru) s v)
