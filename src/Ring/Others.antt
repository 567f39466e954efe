-- ===== src/Ring/Others.antt =====
-- What the loop of `RemoveNode` of internal/cluster/hashring.go keeps: the hashes of the others.
use cache_grid.Base.{
  ℕ, ◌≤◌, ◌≡◌, ◌≢◌, refl, sym, ◌∙◌, ap, Bytes, Bytes-discrete, List, [], ◌∷◌, none, some, false,
  leb, ite, arith, All, Bool-cases, Option-cases, inl, inr, ℕ_discrete,
}
use cache_grid.Base.GoMap.{delete, lookup-delete}
use cache_grid.Ring.State.{owner_of, remove_virtual}
use cache_grid.Ring.Order.{smaller, least_from, clockwise, IsSorted, least_from-head}

-- No hash stands twice.
abbrev pub Distinct : List ℕ → Type 0
Distinct [] = Unit
Distinct (x ∷ xs) = All (λ y. x ≢ y) xs × Distinct xs

-- The hashes of the other nodes.
unfoldable pub others : Bytes → List (ℕ × Bytes) → List ℕ → List ℕ
others name m [] = []
others name m (h ∷ hs) =
    let rest = others name m hs in ite (Bytes-discrete (owner_of m h) name) rest (h ∷ rest)

pub owner_of-delete :
    (h j : ℕ) (m : List (ℕ × Bytes))
    → owner_of (delete ℕ_discrete h m) j ≡ ite (ℕ_discrete h j) [] (owner_of m j)
unfolding owner_of
owner_of-delete h j m = ground (arith, lookup-delete ℕ_discrete h j m)

others-delete :
    (name : Bytes) (m : List (ℕ × Bytes)) (h : ℕ) (hs : List ℕ)
    → All (λ y. h ≢ y) hs
    → others name (delete ℕ_discrete h m) hs ≡ others name m hs
unfolding others
others-delete name m h [] a = refl
others-delete name m h (y ∷ ys) a =
    ground (arith, owner_of-delete h y m, others-delete name m h ys a.1)

pub remove_virtual-others :
    (name : Bytes) (hs : List ℕ) (m : List (ℕ × Bytes))
    → Distinct hs
    → (remove_virtual name hs m).0 ≡ others name m hs
unfolding remove_virtual others
remove_virtual-others name [] m d = refl
remove_virtual-others name (h ∷ hs) m d = ground (
  arith,
  remove_virtual-others name hs m d.1,
  remove_virtual-others name hs (delete ℕ_discrete h m) d.1,
  others-delete name m h hs d.0,
)

-- A hash that has another owner keeps it.
pub remove_virtual-owner :
    (name : Bytes) (hs : List ℕ) (m : List (ℕ × Bytes)) (h : ℕ)
    → owner_of m h ≢ name
    → owner_of (remove_virtual name hs m).1 h ≡ owner_of m h
unfolding remove_virtual
remove_virtual-owner name [] m h ne = refl
remove_virtual-owner name (x ∷ xs) m h ne = ground (
  arith,
  owner_of-delete x h m,
  remove_virtual-owner name xs m h ne,
  remove_virtual-owner name xs (delete ℕ_discrete x m) h,
)

pub All-others :
    (P : ℕ → Type 0) (name : Bytes) (m : List (ℕ × Bytes)) (hs : List ℕ)
    → All P hs
    → All P (others name m hs)
unfolding others
All-others P name m [] a = tt
All-others P name m (h ∷ hs) a = ground (arith, All-others P name m hs a.1)

pub others-IsSorted :
    (name : Bytes) (m : List (ℕ × Bytes)) (hs : List ℕ) → IsSorted hs → IsSorted (others name m hs)
unfolding others
others-IsSorted name m [] s = tt
others-IsSorted name m (h ∷ hs) s =
    ground (arith, All-others (λ y. h ≤ y) name m hs s.0, others-IsSorted name m hs s.1)

least_from_empty : (h : ℕ) → least_from h [] ≡ none
unfolding least_from
least_from_empty h = refl

least_from_skip :
    (h y : ℕ) (ys : List ℕ) → leb h y ≡ false → least_from h (y ∷ ys) ≡ least_from h ys
unfolding least_from
least_from_skip h y ys gt = ground arith

others_keep :
    (name : Bytes) (m : List (ℕ × Bytes)) (y : ℕ) (ys : List ℕ)
    → owner_of m y ≢ name
    → others name m (y ∷ ys) ≡ y ∷ others name m ys
unfolding others
others_keep name m y ys ne = ground arith

least_from-others_skip :
    (name : Bytes) (m : List (ℕ × Bytes)) (h y : ℕ) (ys : List ℕ)
    → leb h y ≡ false
    → least_from h (others name m (y ∷ ys)) ≡ least_from h (others name m ys)
unfolding others least_from
least_from-others_skip name m h y ys gt = ground arith

-- The least hash stays the least, if it stays.
least_from-others :
    (name : Bytes) (m : List (ℕ × Bytes)) (h : ℕ) (hs : List ℕ) {x : ℕ}
    → IsSorted hs
    → least_from h hs ≡ some x
    → owner_of m x ≢ name
    → least_from h (others name m hs) ≡ some x
least_from-others name m h [] s e ne = absurd (ground (arith, least_from_empty h))
least_from-others name m h (y ∷ ys) {x} s e ne = elim (Bool-cases (leb h y)) [
  | inl le ↦
      let first = least_from-head h y ys s (ground arith) in
      let same : y ≡ x = ground arith in
      rw (others_keep name m y ys (rw same ne)) (
        least_from-head h y (others name m ys)
          (All-others (λ z. y ≤ z) name m ys s.0, others-IsSorted name m ys s.1) (ground arith)
        ∙ ap some same)
  | inr gt ↦
      least_from-others_skip name m h y ys gt
      ∙ least_from-others name m h ys {x = x} s.1 (sym (least_from_skip h y ys gt) ∙ e) ne
]

least_from-others-none :
    (name : Bytes) (m : List (ℕ × Bytes)) (h : ℕ) (hs : List ℕ)
    → least_from h hs ≡ none
    → least_from h (others name m hs) ≡ none
unfolding least_from others smaller
least_from-others-none name m h [] e = refl
least_from-others-none name m h (y ∷ ys) e = elim (Option-cases (least_from h ys)) [
  | inl left ↦ ground (arith, left, least_from-others-none name m h ys)
  | inr (z, left) ↦ ground (arith, left)
]

pub clockwise-others :
    (name : Bytes) (m : List (ℕ × Bytes)) (h : ℕ) (hs : List ℕ) {x : ℕ}
    → IsSorted hs
    → clockwise h hs ≡ some x
    → owner_of m x ≢ name
    → clockwise h (others name m hs) ≡ some x
unfolding clockwise
clockwise-others name m h hs {x} s e ne = elim (Option-cases (least_from h hs)) [
  | inl past ↦ ground (
    arith,
    past,
    least_from-others-none name m h hs past,
    least_from-others name m 0 hs {x = x} s,
  )
  | inr (y, e') ↦ ground (arith, e', least_from-others name m h hs {x = y} s e')
]
