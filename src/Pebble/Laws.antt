-- ===== src/Pebble/Laws.antt =====
-- What the store of store_pebble.go lets its caller read back, and what it counts.
use cache_grid.Base.{
  ℕ, ◌+◌, ◌<◌, ◌≤◌, ◌^◌, ◌≡◌, ◌≢◌, Bytes, some, true, false, arith, Option-cases, inl, inr,
}
use cache_grid.Base.Int.{ℤ, pos, pos_part, ltb_ℤ, ◌+ℤ◌, ◌-ℤ◌}
use cache_grid.Shard.Codec.{Msgpack, add64}
use cache_grid.Pebble.Format.{
  encode, decode, is_expired, is_negative, expires_at_nano, decode-encode,
}
use cache_grid.Pebble.Db
use cache_grid.Pebble.Db.{Db, IsMap}
use cache_grid.Pebble.State
use cache_grid.Pebble.State.{PebbleStore, write, drop_expired, write_counter}

not_expired :
    (ttl : ℤ) (now later : ℕ)
    → now + pos_part ttl < 2 ^ 63
    → (ltb_ℤ (pos 0) ttl ≡ true → later ≤ now + pos_part ttl)
    → is_expired (expires_at_nano ttl now) later ≡ false
unfolding is_expired is_negative expires_at_nano
not_expired ttl now later small time = ground arith

module _ (p : Db) (faithful : Db.IsFaithful p) (s : PebbleStore p) (key value : Bytes) (ttl : ℤ)
    (now later : ℕ) where
  -- Over a faithful database, if its write succeeds, `Set` is read back by `Get` until its
  -- lifetime has passed, and `Get` answers for another key as before. The expiry is below 2 ^ 63.
  pub get-set_on_disk :
      (other : Bytes)
      → (write p s key (encode value ttl now)).1 ≡ true
      → now + pos_part ttl < 2 ^ 63
      → (ltb_ℤ (pos 0) ttl ≡ true → later ≤ now + pos_part ttl)
      → key ≢ other
      → ((State.get p (State.set p s key value ttl now) key later).1 ≡ some value)
        × ((State.get p (State.set p s key value ttl now) other later).1
            ≡ (State.get p s other later).1)
  unfolding State.get State.set write
  get-set_on_disk other ok small time ne = ground (
    arith,
    faithful.read_set s.db key (encode value ttl now) key,
    faithful.read_set s.db key (encode value ttl now) other,
    decode-encode value ttl now,
    not_expired ttl now later small time,
  )

-- The count is the number of keys.
abbrev pub IsCounted : (p : Db) (size : p.D → ℕ) → PebbleStore p → Type 0
IsCounted p size s = s.count ≡ pos (size s.db)

module _ (p : Db) (size : p.D → ℕ) (map : IsMap p size) (s : PebbleStore p) (key : Bytes) where
  -- A write that succeeds keeps the count right, and so does a deletion.
  pub write-IsCounted :
      (encoded : Bytes)
      → IsCounted p size s
      → (write p s key encoded).1 ≡ true
      → IsCounted p size (write p s key encoded).0
  unfolding write ◌+ℤ◌
  write-IsCounted encoded counted ok = elim (Option-cases (p.get s.db key)) [
    | inl e ↦ ground (arith, map.size_set s.db key encoded)
    | inr (x, e) ↦ ground (arith, map.size_set s.db key encoded)
  ]

  -- `Delete` of a key, if it succeeds, keeps the count right.
  pub delete-IsCounted :
      IsCounted p size s
      → (State.delete p s key).1 ≡ true
      → IsCounted p size (State.delete p s key).0
  unfolding State.delete ◌-ℤ◌
  delete-IsCounted counted ok = elim (Option-cases (p.get s.db key)) [
    | inl e ↦ ground arith
    | inr (x, e) ↦ ground (arith, map.size_delete s.db key x)
  ]

  -- Over a database that is a map, if the count is the number of keys, `Incr` of an expired
  -- counter that succeeds leaves a count that is one less than the number of keys.
  pub incr_drifts :
      (m : Msgpack) (delta : ℕ) (default_ttl : ℤ) (t₁ t₂ t₃ : ℕ) (raw : Bytes) (result : ℕ)
      → IsCounted p size s
      → p.get s.db key ≡ some raw
      → is_expired (decode raw).1 t₁ ≡ true
      → (State.incr p m s key delta default_ttl t₁ t₂ t₃).1 ≡ some result
      → let s' = (State.incr p m s key delta default_ttl t₁ t₂ t₃).0 in
        (s'.count ≡ pos (size s'.db) -ℤ pos 1) × (size s'.db ≡ size s.db)
  unfolding State.incr write_counter write
  incr_drifts m delta default_ttl t₁ t₂ t₃ raw result counted found old done =
      elim (Option-cases (m.marshal (add64 0 delta))) [
        | inl e ↦ absurd (ground arith)
        | inr (value, e) ↦ ground (arith, map.size_set s.db key (encode value default_ttl t₃))
      ]
