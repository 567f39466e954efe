-- ===== src/Ring/Rotation.antt =====
-- The walk of `GetNodes` in internal/cluster/hashring.go meets the hashes clockwise from the key.
use cache_grid.Base.{
  ℕ, zero, suc, ◌+◌, ◌%◌, ◌<◌, ◌≤◌, ◌≡◌, refl, sym, ◌∙◌, ap, List, [], ◌∷◌, ◌++◌, true, false, leb,
  if◌then◌else◌, arith, All, get_or, length, length-append, dec_lt,
}
use mathlib.Core.List.{append-nil}
use cache_grid.Ring.State.{search_fuel, start_index}
use cache_grid.Ring.Search.{search_fuel-IsFirst}
use cache_grid.Ring.Order.{IsSorted}
use cache_grid.Ring.Owner.{at_or_after, at_or_after-IsMonotone}

-- The hashes below `h`, and the others.
abbrev pub hashes_below : ℕ → List ℕ → List ℕ
hashes_below h [] = []
hashes_below h (x ∷ xs) = let rest = hashes_below h xs in if leb h x then rest else x ∷ rest

abbrev pub hashes_from : ℕ → List ℕ → List ℕ
hashes_from h [] = []
hashes_from h (x ∷ xs) = let rest = hashes_from h xs in if leb h x then x ∷ rest else rest

-- All hashes, from the first one that is not below `h` on.
abbrev pub clockwise_from : ℕ → List ℕ → List ℕ
clockwise_from h xs = hashes_from h xs ++ hashes_below h xs

-- `count` hashes from an index on, and round the ring.
abbrev hashes_at : List ℕ → ℕ → ℕ → List ℕ
hashes_at xs j zero = []
hashes_at xs j (suc count) = get_or xs j 0 ∷ hashes_at xs (suc j) count

abbrev pub hashes_around : List ℕ → ℕ → ℕ → List ℕ
hashes_around xs j zero = []
hashes_around xs j (suc count) = get_or xs (j % length xs) 0 ∷ hashes_around xs (suc j) count

hashes_at-cons :
    (x : ℕ) (xs : List ℕ) (j count : ℕ) → hashes_at (x ∷ xs) (suc j) count ≡ hashes_at xs j count
hashes_at-cons x xs j zero = refl
hashes_at-cons x xs j (suc count) = ap (λ l. get_or xs j 0 ∷ l) (hashes_at-cons x xs (suc j) count)

hashes_at_front : (a b : List ℕ) → hashes_at (a ++ b) 0 (length a) ≡ a
hashes_at_front [] b = refl
hashes_at_front (x ∷ a) b =
    ap (λ l. x ∷ l) (hashes_at-cons x (a ++ b) 0 (length a) ∙ hashes_at_front a b)

hashes_at_back : (a b : List ℕ) → hashes_at (a ++ b) (length a) (length b) ≡ b
hashes_at_back [] b = ap (λ l. hashes_at l 0 (length b)) (sym (append-nil b)) ∙ hashes_at_front b []
hashes_at_back (x ∷ a) b = hashes_at-cons x (a ++ b) (length a) (length b) ∙ hashes_at_back a b

small_mod : (j n : ℕ) → j < n → j % n ≡ j
small_mod j n h = grind arith

wrapped_mod : (j n : ℕ) → j < n → (n + j) % n ≡ j
wrapped_mod j n h = grind arith

hashes_around_inside :
    (xs : List ℕ) (j count : ℕ)
    → j + count ≤ length xs
    → hashes_around xs j count ≡ hashes_at xs j count
hashes_around_inside xs j zero h = refl
hashes_around_inside xs j (suc count) h =
    rw (small_mod j (length xs) (omega arith))
      (ap (λ l. get_or xs j 0 ∷ l) (hashes_around_inside xs (suc j) count (omega arith)))

hashes_around_again :
    (xs : List ℕ) (j count : ℕ)
    → j + count ≤ length xs
    → hashes_around xs (length xs + j) count ≡ hashes_at xs j count
hashes_around_again xs j zero h = refl
hashes_around_again xs j (suc count) h =
    let next : suc (length xs + j) ≡ length xs + suc j = omega arith in
    rw (wrapped_mod j (length xs) (omega arith)) (
      ap (λ l. get_or xs j 0 ∷ l)
        (ap (λ k. hashes_around xs k count) next
          ∙ hashes_around_again xs (suc j) count (omega arith)))

hashes_around-add :
    (xs : List ℕ) (j c d : ℕ)
    → hashes_around xs j (c + d) ≡ hashes_around xs j c ++ hashes_around xs (c + j) d
hashes_around-add xs j zero d =
    let none_more : 0 + d ≡ d = omega arith in
    let same : j ≡ 0 + j = omega arith in
    ap (λ k. hashes_around xs j k) none_more ∙ ap (λ k. hashes_around xs k d) same
hashes_around-add xs j (suc c) d =
    let one_more : suc c + d ≡ suc (c + d) = omega arith in
    let same : c + suc j ≡ suc c + j = omega arith in
    ap (λ k. hashes_around xs j k) one_more
    ∙ ap (λ l. get_or xs (j % length xs) 0 ∷ l)
        (hashes_around-add xs (suc j) c d
          ∙ ap (λ k. hashes_around xs (suc j) c ++ hashes_around xs k d) same)

all_from :
    (h x : ℕ) (xs : List ℕ)
    → h ≤ x
    → All (λ y. x ≤ y) xs
    → (hashes_below h xs ≡ []) × (hashes_from h xs ≡ xs)
all_from h x [] le a = (refl, refl)
all_from h x (y ∷ xs) le a = ground (arith, all_from h x xs le a.1, a.0)

split_sorted : (h : ℕ) (xs : List ℕ) → IsSorted xs → hashes_below h xs ++ hashes_from h xs ≡ xs
split_sorted h [] s = refl
split_sorted h (x ∷ xs) s = ground (arith, all_from h x xs, split_sorted h xs s.1, s.0)

test_below :
    (h : ℕ) (xs : List ℕ) (k : ℕ)
    → IsSorted xs
    → k < length (hashes_below h xs)
    → at_or_after xs h k ≡ false
test_below h [] k s lt = absurd (omega arith)
test_below h (x ∷ xs) zero s lt = ground (arith, all_from h x xs, s.0)
test_below h (x ∷ xs) (suc k) s lt = ground (arith, all_from h x xs, s.0, test_below h xs k s.1)

test_from :
    (h : ℕ) (xs : List ℕ)
    → IsSorted xs
    → length (hashes_below h xs) < length xs
    → at_or_after xs h (length (hashes_below h xs)) ≡ true
test_from h [] s lt = absurd (omega arith)
test_from h (x ∷ xs) s lt = ground (arith, all_from h x xs, s.0, test_from h xs s.1)

-- Where the first hash of a walk is that behind those below `h`.
from_split :
    (h : ℕ) (xs : List ℕ)
    → IsSorted xs
    → hashes_around xs (length (hashes_below h xs)) (length xs) ≡ clockwise_from h xs
from_split h xs s =
    let b = hashes_below h xs in
    let a = hashes_from h xs in
    let whole = split_sorted h xs s in
    let size : length xs ≡ length a + length b =
      omega (arith, ap length whole, length-append b a) in
    let again : length a + length b ≡ length xs + 0 = omega arith in
    let first =
      hashes_around_inside xs (length b) (length a) (omega arith)
      ∙ ap (λ l. hashes_at l (length b) (length a)) (sym whole)
      ∙ hashes_at_back b a in
    let rest =
      ap (λ k. hashes_around xs k (length b)) again
      ∙ hashes_around_again xs 0 (length b) (omega arith)
      ∙ ap (λ l. hashes_at l 0 (length b)) (sym whole)
      ∙ hashes_at_front b a in
    ap (λ k. hashes_around xs (length b) k) size
    ∙ hashes_around-add xs (length b) (length a) (length b)
    ∙ ap (λ l. l ++ hashes_around xs (length a + length b) (length b)) first
    ∙ ap (λ l. a ++ l) rest

no_more : (l : List ℕ) → length l ≤ 0 → l ≡ []
no_more [] h = refl
no_more (x ∷ l) h = absurd (omega arith)

-- From the start of a sorted ring a walk meets all hashes, clockwise from `h`.
pub hashes_around-clockwise_from :
    (h : ℕ) (xs : List ℕ)
    → IsSorted xs
    → hashes_around xs (start_index xs h) (length xs) ≡ clockwise_from h xs
unfolding start_index
hashes_around-clockwise_from h xs s =
    let n = length xs in
    let b = hashes_below h xs in
    let a = hashes_from h xs in
    let first =
      search_fuel-IsFirst (suc n) n (at_or_after xs h) 0 n (at_or_after-IsMonotone xs h s)
        (omega arith) (omega arith) (omega arith) in
    let idx = search_fuel (suc n) (at_or_after xs h) 0 n in
    let whole = split_sorted h xs s in
    let size : n ≡ length a + length b = omega (arith, ap length whole, length-append b a) in
    let found : idx ≡ length b = ground (
      arith,
      first.below (length b),
      first.holds,
      first.most,
      test_below h xs idx s,
      test_from h xs s,
    ) in
    elim (dec_lt idx n) [
      | yes inside ↦
          let start : start_index xs h ≡ length b = ground arith in
          ap (λ k. hashes_around xs k n) start ∙ from_split h xs s
      | no outside ↦
          let start : start_index xs h ≡ 0 = ground arith in
          let empty = no_more a (omega arith) in
          let all =
            hashes_around_inside xs 0 n (omega arith)
            ∙ ap (λ l. hashes_at l 0 n) (sym (append-nil xs))
            ∙ hashes_at_front xs [] in
          ap (λ k. hashes_around xs k n) start
          ∙ all
          ∙ sym whole
          ∙ ap (λ l. b ++ l) empty
          ∙ append-nil b
          ∙ ap (λ l. l ++ b) (sym empty)
    ]
