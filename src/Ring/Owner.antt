-- ===== src/Ring/Owner.antt =====
-- `GetNode` of internal/cluster/hashring.go: the bisection finds the next hash clockwise.
use cache_grid.Base.{
  ℕ, zero, suc, ◌<◌, ◌≤◌, ◌≡◌, refl, Bytes, List, [], ◌∷◌, none, some, Bool, true, false, leb,
  arith, dec_lt, All, get_or, get_elem?, length,
}
use cache_grid.Store.Fnv.{fnv32a}
use cache_grid.Ring.State.{Ring, search_fuel, start_index, owner_of, get_node}
use cache_grid.Ring.Search.{IsMonotone, search_fuel-IsFirst}
use cache_grid.Ring.Order.{least_from, clockwise, IsSorted, least_from-head}

get_or-All : (P : ℕ → Type 0) (xs : List ℕ) (i : ℕ) → All P xs → i < length xs → P (get_or xs i 0)
get_or-All P [] i a h = elim h [ ]
get_or-All P (x ∷ xs) zero a h = a.0
get_or-All P (x ∷ xs) (suc i) a h = get_or-All P xs i a.1 (omega arith)

get_or_mono :
    (xs : List ℕ) (i j : ℕ) → IsSorted xs → i ≤ j → j < length xs → get_or xs i 0 ≤ get_or xs j 0
get_or_mono [] i j s le h = elim h [ ]
get_or_mono (x ∷ xs) zero zero s le h = omega arith
get_or_mono (x ∷ xs) zero (suc j) s le h = get_or-All (λ y. x ≤ y) xs j s.0 (omega arith)
get_or_mono (x ∷ xs) (suc i) zero s le h = absurd (omega arith)
get_or_mono (x ∷ xs) (suc i) (suc j) s le h = get_or_mono xs i j s.1 (omega arith) (omega arith)

-- The test of the search.
abbrev pub at_or_after : List ℕ → ℕ → ℕ → Bool
at_or_after xs h i = leb h (get_or xs i 0)

pub at_or_after-IsMonotone :
    (xs : List ℕ) (h : ℕ) → IsSorted xs → IsMonotone (length xs) (at_or_after xs h)
at_or_after-IsMonotone xs h s i j le lt hit = ground (arith, get_or_mono xs i j s le lt)

least_from-get_elem? :
    (xs : List ℕ) (h r : ℕ)
    → IsSorted xs
    → ((k : ℕ) → k < r → at_or_after xs h k ≡ false)
    → (r < length xs → at_or_after xs h r ≡ true)
    → least_from h xs ≡ get_elem? xs r
unfolding least_from
least_from-get_elem? [] h r s below hit = refl
least_from-get_elem? (x ∷ xs) h zero s below hit =
    least_from-head h x xs s (ground (arith, hit (omega arith)))
least_from-get_elem? (x ∷ xs) h (suc r) s below hit = ground (
  arith,
  below 0 (omega arith),
  least_from-get_elem? xs h r s.1 (λ k lt. below (suc k) (omega arith)) (λ lt. hit (omega arith)),
)

get_elem?-get_or : (xs : List ℕ) (i : ℕ) → i < length xs → get_elem? xs i ≡ some (get_or xs i 0)
get_elem?-get_or [] i h = elim h [ ]
get_elem?-get_or (x ∷ xs) zero h = refl
get_elem?-get_or (x ∷ xs) (suc i) h = get_elem?-get_or xs i (omega arith)

get_elem?_outside : (xs : List ℕ) (i : ℕ) → length xs ≤ i → get_elem? xs i ≡ none
get_elem?_outside [] i h = refl
get_elem?_outside (x ∷ xs) zero h = absurd (omega arith)
get_elem?_outside (x ∷ xs) (suc i) h = get_elem?_outside xs i (omega arith)

-- The index that `GetNode` and `GetNodes` start from is in range, and holds the next hash
-- clockwise.
pub start_index-clockwise :
    (xs : List ℕ) (h : ℕ)
    → IsSorted xs
    → 0 < length xs
    → (start_index xs h < length xs) × (clockwise h xs ≡ some (get_or xs (start_index xs h) 0))
unfolding start_index clockwise
start_index-clockwise xs h s nonempty =
    let n = length xs in
    let first =
      search_fuel-IsFirst (suc n) n (at_or_after xs h) 0 n (at_or_after-IsMonotone xs h s)
        (omega arith) (omega arith) (omega arith) in
    let idx = search_fuel (suc n) (at_or_after xs h) 0 n in
    let found =
      least_from-get_elem? xs h idx s (λ k lt. first.below k (omega arith) lt) first.holds in
    elim (dec_lt idx n) [
      | yes inside ↦ ground (arith, found, get_elem?-get_or xs idx inside)
      | no outside ↦ ground (
        arith,
        found,
        get_elem?_outside xs idx (omega arith),
        least_from-get_elem? xs 0 0 s (λ k lt. absurd (omega arith)) (λ lt. ground arith),
        get_elem?-get_or xs 0 nonempty,
      )
    ]

clockwise_empty : (h : ℕ) → clockwise h [] ≡ none
unfolding clockwise least_from
clockwise_empty h = refl

-- On a ring with sorted hashes, `GetNode` answers with the owner of the first hash clockwise from
-- the key's, and with the empty name where there is no hash.
pub get_node-clockwise :
    (r : Ring) (key : Bytes)
    → IsSorted r.sorted_hashes
    → get_node r key ≡ (elim (clockwise (fnv32a key) r.sorted_hashes) [
      | none ↦ []
      | some h ↦ owner_of r.hash_map h
    ])
unfolding get_node
get_node-clockwise r key s = from r.sorted_hashes refl s
  where
    from :
        (xs : List ℕ)
        → r.sorted_hashes ≡ xs
        → IsSorted xs
        → get_node r key ≡ (elim (clockwise (fnv32a key) r.sorted_hashes) [
          | none ↦ []
          | some h ↦ owner_of r.hash_map h
        ])
    from [] e s' = ground (arith, clockwise_empty (fnv32a key))
    from (x ∷ xs) e s' =
        ground (arith, start_index-clockwise (x ∷ xs) (fnv32a key) s' (omega arith))
