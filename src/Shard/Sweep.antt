-- ===== src/Shard/Sweep.antt =====
-- `DeleteExpired` of internal/cache/shard.go: what a sweep removes, counts and reports.
use cache_grid.Base.{
  ℕ, suc, ◌+◌, ◌≡◌, refl, Bytes, Bytes-discrete, List, [], ◌∷◌, Option, none, some, ite,
  if◌then◌else◌, arith, lookup, length, Option-cases, Bool-cases, inl, inr,
}
use cache_grid.Base.GoMap.{Unique, lookup-delete, length-delete, delete-Unique, lookup-All}
use cache_grid.Shard.Entry.{Entry, is_expired}
use cache_grid.Shard.State.{Shard, Fired, remove_locked}
use cache_grid.Shard.Ops
use cache_grid.Shard.Ops.{find, expire_loop}
use cache_grid.Shard.Methods.{StillThere, StillThere-remove_locked}
use cache_grid.Shard.Consistent.{IsConsistent}

-- What is left of a key's entry.
unfoldable pub unexpired : ℕ → Option Entry → Option Entry
unexpired now none = none
unexpired now (some e) = if is_expired e now then none else some e

-- The bindings that the sweep removes, as calls of the callback.
unfoldable pub swept : ℕ → List (Bytes × Entry) → List Fired
swept now [] = []
swept now ((key, e) ∷ rest) =
    let more = swept now rest in if is_expired e now then (key, e.value) ∷ more else more

find-remove_locked :
    (s : Shard) (key k : Bytes) (e : Entry)
    → find (remove_locked s key e) k ≡ ite (Bytes-discrete key k) none (find s k)
unfolding remove_locked
find-remove_locked s key k e = lookup-delete Bytes-discrete key k s.items

find-expire_loop :
    (rest : List (Bytes × Entry)) (s : Shard) (now : ℕ) (k : Bytes)
    → Unique Bytes-discrete rest
    → StillThere s rest
    → find (expire_loop s rest now).0 k ≡ (elim (lookup Bytes-discrete k rest) [
      | none ↦ find s k
      | some e ↦ if is_expired e now then none else some e
    ])
unfolding expire_loop lookup
find-expire_loop [] s now k u a = refl
find-expire_loop ((key, e) ∷ rest) s now k u a = elim (Bool-cases (is_expired e now)) [
  | inl old ↦ ground (
    arith,
    old,
    find-remove_locked s key k e,
    find-expire_loop rest (remove_locked s key e) now k u.1
        (StillThere-remove_locked s key e rest u.0 a.1),
  )
  | inr live ↦ ground (arith, live, find-expire_loop rest s now k u.1 a.1)
]

find-sweep :
    (s : Shard) (now : ℕ) (k : Bytes)
    → IsConsistent s
    → find (expire_loop s s.items now).0 k ≡ unexpired now (find s k)
unfolding unexpired
find-sweep s now k v =
    let there = lookup-All Bytes-discrete s.items v.unique in
    elim (Option-cases (find s k)) [
      | inl e ↦ ground (arith, find-expire_loop s.items s now k v.unique there)
      | inr (x, e) ↦ ground (arith, find-expire_loop s.items s now k v.unique there)
    ]

remove_locked-Unique :
    (s : Shard) (key : Bytes) (e : Entry)
    → Unique Bytes-discrete s.items
    → Unique Bytes-discrete (remove_locked s key e).items
unfolding remove_locked
remove_locked-Unique s key e u = delete-Unique Bytes-discrete key s.items u

remove_locked-length :
    (s : Shard) (key : Bytes) (e : Entry)
    → Unique Bytes-discrete s.items
    → find s key ≡ some e
    → (suc (length (remove_locked s key e).items) ≡ length s.items)
      × ((remove_locked s key e).on_expire ≡ s.on_expire)
unfolding remove_locked
remove_locked-length s key e u found =
    (omega (arith, length-delete Bytes-discrete key s.items e u found), refl)

counts-expire_loop :
    (rest : List (Bytes × Entry)) (s : Shard) (now : ℕ)
    → Unique Bytes-discrete rest
    → StillThere s rest
    → Unique Bytes-discrete s.items
    → ((expire_loop s rest now).1 ≡ length (swept now rest))
      × ((expire_loop s rest now).1 + length (expire_loop s rest now).0.items ≡ length s.items)
      × ((expire_loop s rest now).2 ≡ (if s.on_expire then swept now rest else []))
unfolding expire_loop swept
counts-expire_loop [] s now u a us = (refl, omega arith, ground arith)
counts-expire_loop ((key, e) ∷ rest) s now u a us = elim (Bool-cases (is_expired e now)) [
  | inl old ↦
      let s' = remove_locked s key e in
      let ih =
        counts-expire_loop rest s' now u.1 (StillThere-remove_locked s key e rest u.0 a.1)
          (remove_locked-Unique s key e us) in
      ground (arith, old, ih, remove_locked-length s key e us a.0)
  | inr live ↦ ground (arith, live, counts-expire_loop rest s now u.1 a.1 us)
]

-- A sweep of a consistent shard removes exactly the entries that have expired: it returns their
-- number, the map shrinks by it, and it calls the callback, if one is set, once for each.
pub delete_expired_lem :
    (s : Shard) (now : ℕ) (k : Bytes)
    → IsConsistent s
    → (find (Ops.delete_expired s now).0 k ≡ unexpired now (find s k))
      × ((Ops.delete_expired s now).1 ≡ length (swept now s.items))
      × ((Ops.delete_expired s now).1 + Ops.len (Ops.delete_expired s now).0 ≡ Ops.len s)
      × ((Ops.delete_expired s now).2 ≡ (if s.on_expire then swept now s.items else []))
unfolding Ops.delete_expired Ops.len
delete_expired_lem s now k v =
    let there = lookup-All Bytes-discrete s.items v.unique in
    let counts = counts-expire_loop s.items s now v.unique there v.unique in
    (find-sweep s now k v, counts.0, counts.1, counts.2)
