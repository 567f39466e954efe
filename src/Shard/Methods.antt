-- ===== src/Shard/Methods.antt =====
-- Each method of internal/cache/shard.go is made of three moves: an entry is removed, an entry is
-- used, a new entry is stored under an absent key. What the moves keep, the methods keep.
use cache_grid.Base.{
  ℕ, ◌≤◌, ◌≡◌, Bytes, Bytes-discrete, List, [], ◌∷◌, Option, none, some, true, lookup, All, arith,
  Option-cases, Bool-cases, inl, inr,
}
use cache_grid.Base.Int.{ℤ}
use cache_grid.Base.GoMap.{Unique, lookup-delete_self, lookup-delete, lookup-All}
use cache_grid.Shard.Entry.{Entry, is_expired}
use cache_grid.Shard.Codec.{Msgpack, add64}
use cache_grid.Shard.Lru.{move_to_front}
use cache_grid.Shard.State.{Shard, remove_locked}
use cache_grid.Shard.Ops
use cache_grid.Shard.Ops.{
  find, store_entry, expiry, reap, write_counter, expire_loop, preserved_ttl, forget_existing,
}
use cache_grid.Shard.Keeps.{drop_existing, find-drop_existing, put_front-forget_existing}

pub store_entry-forget_existing :
    (s : Shard) (key value : Bytes) (expires_at : Option ℕ)
    → store_entry (forget_existing s key) key value expires_at
      ≡ store_entry (drop_existing s key) key value expires_at
unfolding store_entry
store_entry-forget_existing s key value expires_at =
    rw (put_front-forget_existing s key value expires_at)

find-remove_locked : (s : Shard) (key : Bytes) (e : Entry) → find (remove_locked s key e) key ≡ none
unfolding remove_locked
find-remove_locked s key e = lookup-delete_self Bytes-discrete key s.items

pub is_expired_mono :
    (e : Entry) (t₁ t₂ : ℕ) → t₁ ≤ t₂ → is_expired e t₁ ≡ true → is_expired e t₂ ≡ true
unfolding is_expired
is_expired_mono e t₁ t₂ h x = ground arith

-- The bindings of the list are still in the map.
abbrev pub StillThere : Shard → List (Bytes × Entry) → Type 0
StillThere s = All (λ b. find s b.0 ≡ some b.1)

pub StillThere-remove_locked :
    (s : Shard) (key : Bytes) (e : Entry) (rest : List (Bytes × Entry))
    → lookup Bytes-discrete key rest ≡ none
    → StillThere s rest
    → StillThere (remove_locked s key e) rest
unfolding remove_locked lookup
StillThere-remove_locked s key e [] absent a = tt
StillThere-remove_locked s key e ((k, x) ∷ rest) absent a =
    ground
      (arith, lookup-delete Bytes-discrete key k s.items, StillThere-remove_locked s key e rest)

module _ (P : Shard → Type 0)
    (removes : (s : Shard) (key : Bytes) (e : Entry)
      → P s
      → find s key ≡ some e
      → P (remove_locked s key e))
    (touches : (s : Shard) (key : Bytes) (e : Entry)
      → P s
      → find s key ≡ some e
      → P (record s { lru = move_to_front s.lru e.element }))
    (stores : (s : Shard) (key value : Bytes) (expires_at : Option ℕ)
      → P s
      → find s key ≡ none
      → P (store_entry s key value expires_at).0) where
  pub keeps_get : (s : Shard) (key : Bytes) (now : ℕ) → P s → P (Ops.get s key now).0
  unfolding Ops.get
  keeps_get s key now p = elim (Option-cases (find s key)) [
    | inl e ↦ rw (e, Ops.get) p
    | inr (x, e) ↦ rw (e, Ops.get) (ground (arith, removes s key x p e, touches s key x p e))
  ]

  keeps_drop_existing : (s : Shard) (key : Bytes) → P s → P (drop_existing s key)
  unfolding drop_existing
  keeps_drop_existing s key p = elim (Option-cases (find s key)) [
    | inl e ↦ rw (e, drop_existing) p
    | inr (x, e) ↦ rw (e, drop_existing) (removes s key x p e)
  ]

  pub keeps_set :
      (s : Shard) (key value : Bytes) (ttl : ℤ) (now : ℕ) → P s → P (Ops.set s key value ttl now).0
  unfolding Ops.set
  keeps_set s key value ttl now p =
      rw (store_entry-forget_existing s key value (expiry ttl now))
        (stores _ key value _ (keeps_drop_existing s key p) (find-drop_existing s key))

  pub keeps_delete : (s : Shard) (key : Bytes) → P s → P (Ops.delete s key).0
  unfolding Ops.delete
  keeps_delete s key p = elim (Option-cases (find s key)) [
    | inl e ↦ rw (e, Ops.delete) p
    | inr (x, e) ↦ rw (e, Ops.delete) (removes s key x p e)
  ]

  pub keeps_reap : (s : Shard) (key : Bytes) (now : ℕ) → P s → P (reap s key now)
  unfolding reap
  keeps_reap s key now p = elim (Option-cases (find s key)) [
    | inl e ↦ rw (e, reap) p
    | inr (x, e) ↦ rw (e, reap) (ground (arith, removes s key x p e))
  ]

  pub keeps_exists :
      (s s' : Shard) (key : Bytes) (t₁ t₂ : ℕ) → P s → P s' → P (Ops.exists s s' key t₁ t₂).0
  unfolding Ops.exists
  keeps_exists s s' key t₁ t₂ p p' = ground (arith, keeps_reap s' key t₂ p')

  pub keeps_ttl :
      (s s' : Shard) (key : Bytes) (t₁ t₂ : ℕ) → P s → P s' → P (Ops.ttl s s' key t₁ t₂).0
  unfolding Ops.ttl
  keeps_ttl s s' key t₁ t₂ p p' = ground (arith, keeps_reap s' key t₂ p')

  keeps_write_counter :
      (m : Msgpack) (s : Shard) (key : Bytes) (current delta : ℕ) (ttl : ℤ) (now : ℕ)
      → P s
      → find s key ≡ none
      → P (write_counter m s key current delta ttl now).0
  unfolding write_counter
  keeps_write_counter m s key current delta ttl now p absent =
      elim (Option-cases (m.marshal (add64 current delta))) [
        | inl e ↦ rw (e, write_counter) p
        | inr (b, e) ↦ rw (e, write_counter) (stores s key b (expiry ttl now) p absent)
      ]

  -- The clock does not run backwards between the two readings.
  pub keeps_incr :
      (m : Msgpack) (s : Shard) (key : Bytes) (delta : ℕ) (ttl : ℤ) (t₁ t₂ t₃ : ℕ)
      → t₁ ≤ t₂
      → P s
      → P (Ops.incr m s key delta ttl t₁ t₂ t₃).0
  unfolding Ops.incr
  keeps_incr m s key delta ttl t₁ t₂ t₃ h p = elim (Option-cases (find s key)) [
    | inl e ↦ rw (e, Ops.incr) (keeps_write_counter m s key 0 delta ttl t₃ p e)
    | inr (x, e) ↦
        let gone = removes s key x p e in
        let absent = find-remove_locked s key x in
        elim (Bool-cases (is_expired x t₁)) [
          | inl old ↦
              rw (e, Ops.incr)
                (rw (old, is_expired_mono x t₁ t₂ h old)
                  (keeps_write_counter m (remove_locked s key x) key 0 delta ttl t₃ gone absent))
          | inr live ↦ elim (Option-cases (m.unmarshal x.value)) [
            | inl bad ↦ rw (e, Ops.incr) (rw live (rw bad p))
            | inr (n, good) ↦
                rw (e, Ops.incr)
                  (rw live (
                    rw good (
                      keeps_write_counter m (remove_locked s key x) key n delta (preserved_ttl x t₂)
                        t₃ gone absent)))
          ]
        ]
  ]

  keeps_expire_loop :
      (rest : List (Bytes × Entry)) (s : Shard) (now : ℕ)
      → Unique Bytes-discrete rest
      → StillThere s rest
      → P s
      → P (expire_loop s rest now).0
  unfolding expire_loop
  keeps_expire_loop [] s now u a p = p
  keeps_expire_loop ((key, e) ∷ rest) s now u a p = elim (Bool-cases (is_expired e now)) [
    | inl old ↦
        rw (old, expire_loop)
          (keeps_expire_loop rest (remove_locked s key e) now u.1
            (StillThere-remove_locked s key e rest u.0 a.1) (removes s key e p a.0))
    | inr live ↦ rw (live, expire_loop) (keeps_expire_loop rest s now u.1 a.1 p)
  ]

  pub keeps_delete_expired :
      (s : Shard) (now : ℕ) → Unique Bytes-discrete s.items → P s → P (Ops.delete_expired s now).0
  unfolding Ops.delete_expired
  keeps_delete_expired s now u p =
      keeps_expire_loop s.items s now u (lookup-All Bytes-discrete s.items u) p
