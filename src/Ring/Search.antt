-- ===== src/Ring/Search.antt =====
-- `sort.Search` as internal/cluster/hashring.go uses it: bisection finds the first index.
use cache_grid.Base.{
  ℕ, zero, suc, ◌+◌, ◌/◌, ◌<◌, ◌≤◌, ◌≡◌, Bool, true, false, ltb, arith, ℕ_discrete, dec_le,
  Bool-cases, inl, inr,
}
use cache_grid.Ring.State.{search_fuel}

-- Below the bound, once true the test stays true.
abbrev pub IsMonotone : ℕ → (ℕ → Bool) → Type 0
IsMonotone n f = (i j : ℕ) → i ≤ j → j < n → f i ≡ true → f j ≡ true

-- `r` is the first index of [i, j) at which the test holds, or `j`.
pub record IsFirst (f : ℕ → Bool) (i j r : ℕ) : Type 0 where
  pub least : i ≤ r
  pub most : r ≤ j
  pub below : (k : ℕ) → i ≤ k → k < r → f k ≡ false
  pub holds : r < j → f r ≡ true

false_before :
    (n : ℕ) (f : ℕ → Bool) → IsMonotone n f → (k m : ℕ) → k ≤ m → m < n → f m ≡ false → f k ≡ false
false_before n f mono k m le lt no_m = elim (Bool-cases (f k)) [
  | inl yes_k ↦ absurd (ground (arith, mono k m le lt yes_k))
  | inr no_k ↦ no_k
]

-- A half that the test rules out adds nothing.
module _ (n : ℕ) (f : ℕ → Bool) (mono : IsMonotone n f) (i mid j r : ℕ) where
  IsFirst-below : mid < j → f mid ≡ true → IsFirst f i mid r → IsFirst f i j r
  IsFirst-below lt yes_mid s = record {
    least = s.least;
    most = omega arith;
    below = s.below;
    holds = λ _. elim (ℕ_discrete r mid) [ yes e ↦ rw e yes_mid | no ne ↦ s.holds (omega arith) ];
  }

  IsFirst-above : mid < n → i ≤ mid → f mid ≡ false → IsFirst f (suc mid) j r → IsFirst f i j r
  IsFirst-above lt_n le no_mid s = record {
    least = omega arith;
    most = s.most;
    below = λ k hk lt. elim (dec_le k mid) [
      | yes h ↦ false_before n f mono k mid h lt_n no_mid
      | no h ↦ s.below k (omega arith) lt
    ];
    holds = s.holds;
  }

-- Fuel for one round more than the range is long is enough.
pub search_fuel-IsFirst :
    (fuel n : ℕ) (f : ℕ → Bool) (i j : ℕ)
    → IsMonotone n f
    → j ≤ n
    → i ≤ j
    → j < i + fuel
    → IsFirst f i j (search_fuel fuel f i j)
unfolding search_fuel
search_fuel-IsFirst zero n f i j mono in_n le enough = absurd (omega arith)
search_fuel-IsFirst (suc fuel) n f i j mono in_n le enough = elim (Bool-cases (ltb i j)) [
  | inr done ↦ rw done (record {
    least = omega arith;
    most = le;
    below = λ k a b. absurd (omega arith);
    holds = λ h. absurd (ground arith);
  })
  | inl more ↦ elim (Bool-cases (f ((i + j) / 2))) [
    | inl hit ↦
        rw (more, hit)
          (IsFirst-below n f mono i ((i + j) / 2) j _ (ground arith) hit (
            search_fuel-IsFirst fuel n f i ((i + j) / 2) mono (ground arith) (ground arith)
              (ground arith)))
    | inr miss ↦
        rw (more, miss)
          (IsFirst-above n f mono i ((i + j) / 2) j _ (ground arith) (ground arith) miss (
            search_fuel-IsFirst fuel n f (suc ((i + j) / 2)) j mono in_n (ground arith)
              (ground arith)))
  ]
]
