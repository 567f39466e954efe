-- ===== src/Shard/Consistent.antt =====
-- The map and the LRU list of a shard hold the same entries, and the size is their sum.
use cache_grid.Base.{
  ℕ, ◌<◌, ◌≡◌, refl, sym, ◌∙◌, Bytes, Bytes-discrete, some, lookup, length, All, arith,
}
use cache_grid.Base.Int.{ℤ, pos, pos--ℤ, ◌-ℤ◌}
use cache_grid.Base.GoMap.{Unique, lookup-delete, delete-Unique, length-delete}
use cache_grid.Shard.Entry.{Entry, estimate_size}
use cache_grid.Shard.Lru.{remove}
use cache_grid.Shard.State.{Shard, new_shard, remove_locked}
use cache_grid.Shard.Ops.{find}
use cache_grid.Shard.Order.{
  find_key, remove_key, total, Distinct, find_key-remove_key, unlink-remove_key,
  remove_key-Distinct, total-remove_key, length-remove_key, All-remove_key,
}

abbrev pub Older : ℕ → Entry → Type 0
Older n e = e.element < n

abbrev pub IsMeasured : Entry → Type 0
IsMeasured e = e.size ≡ estimate_size e.key e.value

pub record IsConsistent (s : Shard) : Type 0 where
  pub linked : (k : Bytes) → find s k ≡ find_key k s.lru.elems
  pub distinct : Distinct s.lru.elems
  pub fresh : All (Older s.lru.next) s.lru.elems
  pub measured : All IsMeasured s.lru.elems
  pub counted : s.size ≡ pos (total s.lru.elems)
  pub unique : Unique Bytes-discrete s.items
  pub same_length : length s.items ≡ length s.lru.elems

pub new_shard-IsConsistent : (max_size : ℤ) → IsConsistent (new_shard max_size)
unfolding new_shard find_key total lookup
new_shard-IsConsistent max_size = record {
  linked = λ k. refl;
  distinct = tt;
  fresh = tt;
  measured = tt;
  counted = refl;
  unique = tt;
  same_length = refl;
}

-- To give up an entry is to remove its key from the list.
module _ (s : Shard) (key : Bytes) {e : Entry} (v : IsConsistent s)
    (found : find s key ≡ some e) where
  pub found_in_list : find_key key s.lru.elems ≡ some e
  found_in_list = sym (v.linked key) ∙ found

  pub remove-elems : (remove s.lru e.element).elems ≡ remove_key key s.lru.elems
  unfolding remove
  remove-elems = unlink-remove_key key s.lru.elems v.distinct found_in_list

  pub size_without : s.size -ℤ pos e.size ≡ pos (total (remove_key key s.lru.elems))
  size_without = ground (
    arith,
    v.counted,
    total-remove_key key s.lru.elems {e = e} v.distinct found_in_list,
    pos--ℤ e.size (total (remove_key key s.lru.elems)),
  )

  pub remove_locked-IsConsistent : IsConsistent (remove_locked s key e)
  unfolding remove_locked remove
  remove_locked-IsConsistent =
      let es = remove_key key s.lru.elems in
      rw remove-elems (record {
        linked = λ k. ground (
          arith,
          v.linked k,
          lookup-delete Bytes-discrete key k s.items,
          find_key-remove_key key k s.lru.elems,
        );
        distinct = remove_key-Distinct key s.lru.elems v.distinct;
        fresh = All-remove_key (Older s.lru.next) key s.lru.elems v.fresh;
        measured = All-remove_key IsMeasured key s.lru.elems v.measured;
        counted = size_without;
        unique = delete-Unique Bytes-discrete key s.items v.unique;
        same_length = ground (
          arith,
          length-delete Bytes-discrete key s.items e v.unique found,
          length-remove_key key s.lru.elems {e = e} v.distinct found_in_list,
          v.same_length,
        );
      })
