-- ===== src/Shard/Valid.antt =====
-- The invariant of a shard: it is consistent, and within its memory limit.
use cache_grid.Base.{ℕ, ◌≤◌, ◌≡◌, Bytes, Option, none, some, Bool, true, arith}
use cache_grid.Base.Int.{ℤ, pos, pos_part, ltb_ℤ, ◌≤ℤ◌}
use cache_grid.Shard.Entry.{Entry}
use cache_grid.Shard.Codec.{Msgpack}
use cache_grid.Shard.Lru.{move_to_front}
use cache_grid.Shard.State.{Shard, new_shard, remove_locked, evict_locked}
use cache_grid.Shard.Ops
use cache_grid.Shard.Ops.{find, store_entry, put_front}
use cache_grid.Shard.Order.{total-remove_key}
use cache_grid.Shard.Consistent.{
  IsConsistent, new_shard-IsConsistent, remove_locked-IsConsistent, size_without, found_in_list,
}
use cache_grid.Shard.Keeps.{touch-IsConsistent, put_front-IsConsistent, evict_locked-IsConsistent}
use cache_grid.Shard.Evict.{evict_locked-trim, evict_locked-SameSettings, trim, total-fit-le}
use cache_grid.Shard.Methods

pub record IsValid (s : Shard) : Type 0 where
  pub consistent : IsConsistent s
  pub within : ltb_ℤ (pos 0) s.max_size ≡ true → s.size ≤ℤ s.max_size

pub new_shard-IsValid : (max_size : ℤ) → IsValid (new_shard max_size)
unfolding new_shard
new_shard-IsValid max_size = record {
  consistent = new_shard-IsConsistent max_size;
  within = λ h. ground arith;
}

remove_locked-IsValid :
    (s : Shard) (key : Bytes) (e : Entry)
    → IsValid s
    → find s key ≡ some e
    → IsValid (remove_locked s key e)
unfolding remove_locked
remove_locked-IsValid s key e v found = record {
  consistent = remove_locked-IsConsistent s key {e = e} v.consistent found;
  within = λ limited. ground (
    arith,
    v.within limited,
    v.consistent.counted,
    size_without s key {e = e} v.consistent found,
    total-remove_key key s.lru.elems {e = e} v.consistent.distinct
        (found_in_list s key {e = e} v.consistent found),
  );
}

-- What `evictLocked` leaves is within the limit.
evict_locked-within :
    (s : Shard)
    → IsConsistent s
    → ltb_ℤ (pos 0) (evict_locked s).0.max_size ≡ true
    → (evict_locked s).0.size ≤ℤ (evict_locked s).0.max_size
unfolding trim
evict_locked-within s v limited = ground (
  arith,
  evict_locked-SameSettings s,
  evict_locked-trim s v,
  total-fit-le (pos_part s.max_size) s.lru.elems,
  (evict_locked-IsConsistent s v).counted,
)

touch-IsValid :
    (s : Shard) (key : Bytes) (e : Entry)
    → IsValid s
    → find s key ≡ some e
    → IsValid (record s { lru = move_to_front s.lru e.element })
touch-IsValid s key e v found = record {
  consistent = touch-IsConsistent s key {e = e} v.consistent found;
  within = v.within;
}

store_entry-IsValid :
    (s : Shard) (key value : Bytes) (expires_at : Option ℕ)
    → IsValid s
    → find s key ≡ none
    → IsValid (store_entry s key value expires_at).0
unfolding store_entry
store_entry-IsValid s key value expires_at v absent = record {
  consistent =
      evict_locked-IsConsistent _
        (put_front-IsConsistent s key value expires_at v.consistent absent);
  within =
      evict_locked-within _ (put_front-IsConsistent s key value expires_at v.consistent absent);
}

-- A shard under concurrent calls: each step is one section under its lock. A clock reading is any
-- number, but `Incr` reads the clock twice under the lock and the second reading is not earlier.
pub data Step : Shard → Shard → Type 0 where
  get : (s : Shard) (key : Bytes) (now : ℕ) → Step s (Ops.get s key now).0
  set : (s : Shard) (key value : Bytes) (ttl : ℤ) (now : ℕ) → Step s (Ops.set s key value ttl now).0
  delete : (s : Shard) (key : Bytes) → Step s (Ops.delete s key).0
  reap : (s : Shard) (key : Bytes) (now : ℕ) → Step s (Ops.reap s key now)
  incr :
      (m : Msgpack) (s : Shard) (key : Bytes) (delta : ℕ) (ttl : ℤ) (t₁ t₂ t₃ : ℕ)
      → t₁ ≤ t₂
      → Step s (Ops.incr m s key delta ttl t₁ t₂ t₃).0
  delete_expired : (s : Shard) (now : ℕ) → Step s (Ops.delete_expired s now).0
  set_on_evict : (s : Shard) (b : Bool) → Step s (record s { on_evict = b })
  set_on_expire : (s : Shard) (b : Bool) → Step s (record s { on_expire = b })

pub data Reach (s : Shard) : Shard → Type 0 where
  here : Reach s s
  next : {t u : Shard} → Reach s t → Step t u → Reach s u

record_IsConsistent :
    (s : Shard) (a b : Bool)
    → IsConsistent s
    → IsConsistent (record s { on_evict = a; on_expire = b })
record_IsConsistent s a b v = record {
  linked = v.linked;
  distinct = v.distinct;
  fresh = v.fresh;
  measured = v.measured;
  counted = v.counted;
  unique = v.unique;
  same_length = v.same_length;
}

pub Step-IsValid : {s t : Shard} → Step s t → IsValid s → IsValid t
Step-IsValid (get s key now) v =
    Methods.keeps_get IsValid remove_locked-IsValid touch-IsValid store_entry-IsValid s key now v
Step-IsValid (set s key value ttl now) v =
    Methods.keeps_set IsValid remove_locked-IsValid touch-IsValid store_entry-IsValid s key value
      ttl now v
Step-IsValid (delete s key) v =
    Methods.keeps_delete IsValid remove_locked-IsValid touch-IsValid store_entry-IsValid s key v
Step-IsValid (reap s key now) v =
    Methods.keeps_reap IsValid remove_locked-IsValid touch-IsValid store_entry-IsValid s key now v
Step-IsValid (incr m s key delta ttl t₁ t₂ t₃ h) v =
    Methods.keeps_incr IsValid remove_locked-IsValid touch-IsValid store_entry-IsValid m s key delta
      ttl t₁ t₂ t₃ h v
Step-IsValid (delete_expired s now) v =
    Methods.keeps_delete_expired IsValid remove_locked-IsValid touch-IsValid store_entry-IsValid s
      now v.consistent.unique v
Step-IsValid (set_on_evict s b) v = record {
  consistent = record_IsConsistent s b s.on_expire v.consistent;
  within = v.within;
}
Step-IsValid (set_on_expire s b) v = record {
  consistent = record_IsConsistent s s.on_evict b v.consistent;
  within = v.within;
}

-- From an empty shard on, after any sequence of calls and any interleaving of the sections of
-- concurrent ones, in which `Incr` does not read an earlier time second: the map and the LRU list
-- hold the same entries, no key and no list element twice, the size is the sum of the entries'
-- sizes, and a positive limit is kept.
pub Reach-IsValid : (max_size : ℤ) {s : Shard} → Reach (new_shard max_size) s → IsValid s
Reach-IsValid max_size here = new_shard-IsValid max_size
Reach-IsValid max_size (next r st) = Step-IsValid st (Reach-IsValid max_size r)
