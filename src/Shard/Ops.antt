-- ===== src/Shard/Ops.antt =====
-- The methods of internal/cache/shard.go. A method takes the readings of `time.Now()` that it
-- makes, and returns the new shard, its result, and the callbacks that it fires.
use cache_grid.Base.{
  ℕ, suc, Bytes, Bytes-discrete, List, [], ◌∷◌, Option, none, some, Bool, true, false,
  if◌then◌else◌, lookup, length, ◌+◌,
}
use cache_grid.Base.Int.{ℤ, pos, pos_part, sub_ℕ, ltb_ℤ, ◌+ℤ◌, ◌-ℤ◌}
use cache_grid.Base.GoMap.{insert}
use cache_grid.Shard.Codec.{Msgpack, add64}
use cache_grid.Shard.Entry.{Entry, is_expired, remaining_ttl, estimate_size}
use cache_grid.Shard.Lru.{push_front, move_to_front, remove}
use cache_grid.Shard.State.{Shard, Fired, remove_locked, evict_locked}

-- The entry of a key in the map.
abbrev pub find : Shard → Bytes → Option Entry
find s key = lookup Bytes-discrete key s.items

unfoldable pub get : Shard → Bytes → ℕ → Shard × Option Bytes
get s key now = elim (find s key) [
  | none ↦ (s, none)
  | some e ↦
      if is_expired e now
      then (remove_locked s key e, none)
      else (record s { lru = move_to_front s.lru e.element }, some e.value)
]

-- `time.Now().Add(ttl)` for a positive TTL, else the zero time.
unfoldable pub expiry : ℤ → ℕ → Option ℕ
expiry ttl now = if ltb_ℤ (pos 0) ttl then some (now + pos_part ttl) else none

-- Of an entry that `Set` overwrites only the size and the list element are given up.
unfoldable pub forget_existing : Shard → Bytes → Shard
forget_existing s key = elim (find s key) [
  | none ↦ s
  | some existing ↦ record s {
    size = s.size -ℤ pos existing.size;
    lru = remove s.lru existing.element;
  }
]

-- The end of `Set` and of `Incr`: a new entry at the front, then evictions.
unfoldable pub put_front : Shard → Bytes → Bytes → Option ℕ → Shard
put_front s key value expires_at =
    let sz = estimate_size key value in
    let e : Entry = record {
      key = key;
      value = value;
      expires_at = expires_at;
      size = sz;
      element = 0;
    } in
    let (lru, element) = push_front s.lru e in
    record s {
      lru = lru;
      items = insert Bytes-discrete key (record e { element = element }) s.items;
      size = s.size +ℤ pos sz;
    }

unfoldable pub store_entry : Shard → Bytes → Bytes → Option ℕ → Shard × List Fired
store_entry s key value expires_at = evict_locked (put_front s key value expires_at)

unfoldable pub set : Shard → Bytes → Bytes → ℤ → ℕ → Shard × List Fired
set s key value ttl now = store_entry (forget_existing s key) key value (expiry ttl now)

unfoldable pub delete : Shard → Bytes → Shard × Bool
delete s key = elim (find s key) [ none ↦ (s, false) | some e ↦ (remove_locked s key e, true) ]

-- The second critical section of `Exists` and of `TTL`, after the read lock was given up.
unfoldable pub reap : Shard → Bytes → ℕ → Shard
reap s key now = elim (find s key) [
  | none ↦ s
  | some e ↦ if is_expired e now then remove_locked s key e else s
]

-- `s'` is the shard that the second critical section finds.
unfoldable pub exists : Shard → Shard → Bytes → ℕ → ℕ → Shard × Bool
exists s s' key t₁ t₂ = elim (find s key) [
  | none ↦ (s, false)
  | some e ↦ if is_expired e t₁ then (reap s' key t₂, false) else (s, true)
]

-- `t₂` is the second reading: of `reap` or of `time.Until`.
unfoldable pub ttl : Shard → Shard → Bytes → ℕ → ℕ → Shard × ℤ
ttl s s' key t₁ t₂ = elim (find s key) [
  | none ↦ (s, pos 0)
  | some e ↦ if is_expired e t₁ then (reap s' key t₂, pos 0) else (s, remaining_ttl e t₂)
]

-- The TTL with which `Incr` writes a live counter back.
unfoldable pub preserved_ttl : Entry → ℕ → ℤ
preserved_ttl e now = elim e.expires_at [
  | none ↦ pos 0
  | some t ↦ let remaining = sub_ℕ t now in if ltb_ℤ (pos 0) remaining then remaining else pos 0
]

-- The result of `Incr`: `none` is an error of the codec.
abbrev pub Incremented : Type 0
Incremented = Shard × Option ℕ × List Fired

unfoldable pub write_counter : Msgpack → Shard → Bytes → ℕ → ℕ → ℤ → ℕ → Incremented
write_counter m s key current delta ttl now =
    let sum = add64 current delta in
    elim (m.marshal sum) [
      | none ↦ (s, none, [])
      | some value ↦
          let (s', fired) = store_entry s key value (expiry ttl now) in (s', some sum, fired)
    ]

unfoldable pub incr : Msgpack → Shard → Bytes → ℕ → ℤ → ℕ → ℕ → ℕ → Incremented
incr m s key delta ttl t₁ t₂ t₃ = elim (find s key) [
  | none ↦ write_counter m s key 0 delta ttl t₃
  | some e ↦
      if is_expired e t₁
      then write_counter m (if is_expired e t₂ then remove_locked s key e else s) key 0 delta ttl t₃
      else elim (m.unmarshal e.value) [
        | none ↦ (s, none, [])
        | some current ↦
            write_counter m (remove_locked s key e) key current delta (preserved_ttl e t₂) t₃
      ]
]

-- The loop over the map, with the number of entries removed.
unfoldable pub expire_loop : Shard → List (Bytes × Entry) → ℕ → Shard × ℕ × List Fired
expire_loop s [] now = (s, 0, [])
expire_loop s ((key, e) ∷ rest) now = elim (is_expired e now) [
  | false ↦ expire_loop s rest now
  | true ↦
      let (s', count, fired) = expire_loop (remove_locked s key e) rest now in
      (s', suc count, if s.on_expire then (key, e.value) ∷ fired else fired)
]

unfoldable pub delete_expired : Shard → ℕ → Shard × ℕ × List Fired
delete_expired s now = expire_loop s s.items now

unfoldable pub len : Shard → ℕ
len s = length s.items
