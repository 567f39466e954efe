-- ===== src/Ring/Order.antt =====
-- The clockwise order of hashes in internal/cluster/hashring.go, with no index in it.
use cache_grid.Base.{
  ℕ, ◌≤◌, ◌≡◌, refl, List, [], ◌∷◌, ◌++◌, Option, none, some, leb, if◌then◌else◌, arith, All,
  All-map, Bool-cases, inl, inr, Option-cases,
}
use cache_grid.Ring.State.{insert_sorted, sort}

-- The smaller of two numbers that may be missing.
unfoldable pub smaller : Option ℕ → Option ℕ → Option ℕ
smaller none b = b
smaller (some a) none = some a
smaller (some a) (some b) = some (if leb a b then a else b)

-- The least hash that is not below `h`.
unfoldable pub least_from : ℕ → List ℕ → Option ℕ
unfolding smaller
least_from h [] = none
least_from h (x ∷ xs) =
    let rest = least_from h xs in if leb h x then smaller (some x) rest else rest

-- The first hash met clockwise from `h`: past the last one the ring starts again.
unfoldable pub clockwise : ℕ → List ℕ → Option ℕ
clockwise h xs = elim (least_from h xs) [ none ↦ least_from 0 xs | some x ↦ some x ]

abbrev pub IsSorted : List ℕ → Type 0
IsSorted [] = Unit
IsSorted (x ∷ xs) = All (λ y. x ≤ y) xs × IsSorted xs

pub least_from-append :
    (h : ℕ) (xs ys : List ℕ) → least_from h (xs ++ ys) ≡ smaller (least_from h xs) (least_from h ys)
unfolding least_from
least_from-append h [] ys = refl
least_from-append h (x ∷ xs) ys = ground (arith, least_from-append h xs ys)

least_from-insert_sorted :
    (h x : ℕ) (xs : List ℕ) → least_from h (insert_sorted x xs) ≡ least_from h (x ∷ xs)
unfolding least_from insert_sorted
least_from-insert_sorted h x [] = refl
least_from-insert_sorted h x (y ∷ ys) = ground (arith, least_from-insert_sorted h x ys)

pub least_from-sort : (h : ℕ) (xs : List ℕ) → least_from h (sort xs) ≡ least_from h xs
unfolding least_from sort
least_from-sort h [] = refl
least_from-sort h (x ∷ xs) =
    ground (arith, least_from-insert_sorted h x (sort xs), least_from-sort h xs)

pub clockwise-sort : (h : ℕ) (xs : List ℕ) → clockwise h (sort xs) ≡ clockwise h xs
unfolding clockwise
clockwise-sort h xs = ground (arith, least_from-sort h xs, least_from-sort 0 xs)

All-insert_sorted :
    (P : ℕ → Type 0) (x : ℕ) (xs : List ℕ) → P x → All P xs → All P (insert_sorted x xs)
unfolding insert_sorted
All-insert_sorted P x [] p a = (p, tt)
All-insert_sorted P x (y ∷ ys) p a = ground (arith, All-insert_sorted P x ys p a.1)

insert_sorted-IsSorted : (x : ℕ) (xs : List ℕ) → IsSorted xs → IsSorted (insert_sorted x xs)
unfolding insert_sorted
insert_sorted-IsSorted x [] s = (tt, tt)
insert_sorted-IsSorted x (y ∷ ys) s = elim (Bool-cases (leb x y)) [
  | inl le ↦ rw le ((ground arith, All-map ys (λ z h. ground arith) s.0), s)
  | inr gt ↦
      rw gt
        (All-insert_sorted (λ z. y ≤ z) x ys (ground arith) s.0, insert_sorted-IsSorted x ys s.1)
]

pub sort-IsSorted : (xs : List ℕ) → IsSorted (sort xs)
unfolding sort
sort-IsSorted [] = tt
sort-IsSorted (x ∷ xs) = insert_sorted-IsSorted x (sort xs) (sort-IsSorted xs)

-- On a sorted list the least hash from `h` on is the first one.
pub least_from-All :
    (P : ℕ → Type 0) (h : ℕ) (xs : List ℕ) {y : ℕ} → All P xs → least_from h xs ≡ some y → P y
unfolding least_from
least_from-All P h [] a e = cc
least_from-All P h (x ∷ xs) {y} a e = ground (arith, least_from-All P h xs {y = y} a.1)

pub least_from-head :
    (h x : ℕ) (xs : List ℕ) → IsSorted (x ∷ xs) → h ≤ x → least_from h (x ∷ xs) ≡ some x
unfolding least_from
least_from-head h x xs s le = elim (Option-cases (least_from h xs)) [
  | inl e ↦ ground (arith, e)
  | inr (y, e) ↦ ground (arith, e, least_from-All (λ z. x ≤ z) h xs {y = y} s.0 e)
]
