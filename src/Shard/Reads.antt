-- ===== src/Shard/Reads.antt =====
-- What can be read of a shard after a write.
use cache_grid.Base.{
  ℕ, ◌+◌, ◌-◌, ◌<◌, ◌≤◌, ◌≡◌, ◌≢◌, ◌⊎◌, Bytes, Bytes-discrete, List, [], ◌∷◌, none, some, true,
  false, ite, arith, Option-cases, Bool-cases, inl, inr,
}
use cache_grid.Base.Int.{ℤ, pos, pos_part, ltb_ℤ}
use cache_grid.Shard.Entry.{estimate_size}
use cache_grid.Shard.State.{Shard}
use cache_grid.Shard.Ops
use cache_grid.Shard.Ops.{expiry}
use cache_grid.Shard.Spec.{
  Cell, cells, has_passed, recall, forget, fitting, within_limit, use_cell, store_cell,
}
use cache_grid.Shard.Refine.{get-use_cell, set-store_cell}
use cache_grid.Shard.Valid.{IsValid, Step-IsValid, set}

recall-forget :
    (k j : Bytes) (cs : List Cell)
    → recall j (forget k cs) ≡ ite (Bytes-discrete k j) none (recall j cs)
unfolding recall forget
recall-forget k j [] = ground arith
recall-forget k j (c ∷ cs) = ground (arith, recall-forget k j cs)

-- The limit cuts cells off: what is still there is what was there.
recall-fitting :
    (budget : ℕ) (j : Bytes) (cs : List Cell) {c : Cell}
    → recall j (fitting budget cs) ≡ some c
    → recall j cs ≡ some c
unfolding recall fitting
recall-fitting budget j [] h = cc
recall-fitting budget j (x ∷ cs) {c} h =
    ground (arith, recall-fitting (budget - estimate_size x.key x.value) j cs {c = c})

-- A value is too large for a limit that its own size exceeds.
abbrev pub Fits : ℤ → Bytes → Bytes → Type 0
Fits limit key value = ltb_ℤ (pos 0) limit ≡ true → estimate_size key value ≤ pos_part limit

-- A lifetime that has not passed: none was given, or it has not run out.
abbrev pub InTime : ℤ → ℕ → ℕ → Type 0
InTime ttl now later = ltb_ℤ (pos 0) ttl ≡ true → later ≤ now + pos_part ttl

-- After `Set` on a valid shard, `Get` of the key returns the value until its lifetime has passed,
-- if a positive limit admits the size of the entry.
pub get-set :
    (s : Shard) (key value : Bytes) (ttl : ℤ) (now later : ℕ)
    → IsValid s
    → Fits s.max_size key value
    → InTime ttl now later
    → (Ops.get (Ops.set s key value ttl now).0 key later).1 ≡ some value
unfolding use_cell store_cell within_limit fitting recall has_passed expiry
get-set s key value ttl now later v fits time = ground (
  arith,
  get-use_cell (Ops.set s key value ttl now).0 key later
      (Step-IsValid (set s key value ttl now) v).consistent,
  set-store_cell s key value ttl now v.consistent,
)

-- `Set` on a valid shard of an entry larger than a positive limit leaves the shard empty: every
-- other entry is evicted, and then the new one.
pub set_too_large :
    (s : Shard) (key value : Bytes) (ttl : ℤ) (now : ℕ)
    → IsValid s
    → ltb_ℤ (pos 0) s.max_size ≡ true
    → pos_part s.max_size < estimate_size key value
    → cells (Ops.set s key value ttl now).0 ≡ []
unfolding store_cell within_limit fitting
set_too_large s key value ttl now v limited large =
    ground (arith, set-store_cell s key value ttl now v.consistent)

recall-front_ne :
    (c : Cell) (cs : List Cell) (j : Bytes)
    → c.key ≢ j
    → recall j (c ∷ forget c.key cs) ≡ recall j cs
unfolding recall
recall-front_ne c cs j ne = ground (arith, recall-forget c.key j cs)

recall-store_cell_ne :
    (limit : ℤ) (cs : List Cell) (c : Cell) (j : Bytes)
    → c.key ≢ j
    → ((recall j (store_cell limit cs c) ≡ recall j cs) ⊎ (recall j (store_cell limit cs c) ≡ none))
      × (ltb_ℤ (pos 0) limit ≡ false → recall j (store_cell limit cs c) ≡ recall j cs)
unfolding store_cell within_limit
recall-store_cell_ne limit cs c j ne = elim (Bool-cases (ltb_ℤ (pos 0) limit)) [
  | inr unlimited ↦ ground (arith, unlimited, recall-front_ne c cs j ne)
  | inl limited ↦ elim (Option-cases (recall j (fitting (pos_part limit) (c ∷ forget c.key cs)))) [
    | inl e ↦ ground (arith, limited, e)
    | inr (x, e) ↦ ground (
      arith,
      limited,
      e,
      recall-front_ne c cs j ne,
      recall-fitting (pos_part limit) j (c ∷ forget c.key cs) {c = x} e,
    )
  ]
]

-- `Set` on a valid shard leaves what `Get` answers for another key, or has evicted that key, which
-- happens only under a positive limit.
pub get-set_ne :
    (s : Shard) (key value j : Bytes) (ttl : ℤ) (now later : ℕ)
    → IsValid s
    → key ≢ j
    → let before = (Ops.get s j later).1 in
      let after = (Ops.get (Ops.set s key value ttl now).0 j later).1 in
      (after ≡ before) ⊎ ((after ≡ none) × (ltb_ℤ (pos 0) s.max_size ≡ true))
unfolding use_cell
get-set_ne s key value j ttl now later v ne =
    let c : Cell = record { key = key; value = value; expires_at = expiry ttl now } in
    ground (
      arith,
      get-use_cell s j later v.consistent,
      get-use_cell (Ops.set s key value ttl now).0 j later
          (Step-IsValid (set s key value ttl now) v).consistent,
      set-store_cell s key value ttl now v.consistent,
      recall-store_cell_ne s.max_size (cells s) c j ne,
    )
