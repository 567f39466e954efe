-- ===== src/Shard/Spec.antt =====
-- What a shard promises: a list of cells in order of use, with no map, no list elements and no
-- sizes kept beside them.
use cache_grid.Base.{
  ℕ, ◌-◌, Bytes, Bytes-discrete, List, [], ◌∷◌, map, Option, none, some, Bool, true, false, ite,
  ltb, leb, if◌then◌else◌,
}
use cache_grid.Base.Int.{ℤ, pos, pos_part, ltb_ℤ}
use cache_grid.Shard.Entry.{Entry, estimate_size}
use cache_grid.Shard.State.{Shard}

pub record Cell : Type 0 where
  pub key : Bytes
  pub value : Bytes
  pub expires_at : Option ℕ

abbrev pub cell_of : Entry → Cell
cell_of e = record { key = e.key; value = e.value; expires_at = e.expires_at }

-- Most recently used first.
unfoldable pub cells : Shard → List Cell
cells s = map cell_of s.lru.elems

unfoldable pub has_passed : Cell → ℕ → Bool
has_passed c now = elim c.expires_at [ none ↦ false | some t ↦ ltb t now ]

unfoldable pub recall : Bytes → List Cell → Option Cell
recall k [] = none
recall k (c ∷ cs) = ite (Bytes-discrete k c.key) (some c) (recall k cs)

unfoldable pub holds : Bytes → List Cell → Bool
holds k cs = elim (recall k cs) [ none ↦ false | some _ ↦ true ]

unfoldable pub forget : Bytes → List Cell → List Cell
forget k [] = []
forget k (c ∷ cs) = let rest = forget k cs in ite (Bytes-discrete k c.key) rest (c ∷ rest)

-- The cells in front that fit the budget together.
unfoldable pub fitting : ℕ → List Cell → List Cell
fitting budget [] = []
fitting budget (c ∷ cs) =
    let size = estimate_size c.key c.value in
    let rest = fitting (budget - size) cs in if leb size budget then c ∷ rest else []

unfoldable pub within_limit : ℤ → List Cell → List Cell
within_limit limit cs = if ltb_ℤ (pos 0) limit then fitting (pos_part limit) cs else cs

-- A hit is the most recent cell from then on; what has expired is forgotten.
unfoldable pub use_cell : List Cell → Bytes → ℕ → List Cell × Option Bytes
use_cell cs key now = elim (recall key cs) [
  | none ↦ (cs, none)
  | some c ↦ if has_passed c now then (forget key cs, none) else (c ∷ forget key cs, some c.value)
]

unfoldable pub store_cell : ℤ → List Cell → Cell → List Cell
store_cell limit cs c = within_limit limit (c ∷ forget c.key cs)
