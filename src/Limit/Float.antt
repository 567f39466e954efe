-- ===== src/Limit/Float.antt =====
-- Go's float64 as the limiters use it, with `Duration.Seconds` over it, and what IEEE 754 says of
-- the operations on the numbers that they meet.
use cache_grid.Base.{ℕ, suc, ◌+◌, ◌/◌, ◌%◌, ◌^◌, ◌≤◌, ◌≡◌, Bool, true, false}
use cache_grid.Base.Int.{ℤ, pos, negsuc, sub_ℕ, ◌≤ℤ◌}

pub record Float64 : Type 1 where
  pub F : Type 0
  pub of_int : ℤ → F
  pub to_int : F → ℤ
  pub add : F → F → F
  pub sub : F → F → F
  pub mul : F → F → F
  pub div : F → F → F
  pub less : F → F → Bool
  pub at_most : F → F → Bool

-- Quotient and remainder toward zero.
abbrev pub quotient : ℤ → ℕ → ℤ
quotient (pos n) k = pos (n / k)
quotient (negsuc n) k = sub_ℕ 0 ((n + 1) / k)

abbrev pub remainder : ℤ → ℕ → ℤ
remainder (pos n) k = pos (n % k)
remainder (negsuc n) k = sub_ℕ 0 ((n + 1) % k)

abbrev pub billion : ℕ
billion = 1000000000

unfoldable pub seconds : (fl : Float64) → ℤ → fl.F
seconds fl d =
    fl.add (fl.of_int (quotient d billion))
      (fl.div (fl.of_int (remainder d billion)) (fl.of_int (pos billion)))

-- Up to here integers are exact.
abbrev pub max_exact : ℕ
max_exact = 2 ^ 53

-- Exact integers.
pub record IsExact (fl : Float64) : Type 0 where
  pub trunc : (n : ℕ) → n ≤ max_exact → fl.to_int (fl.of_int (pos n)) ≡ pos n
  pub less_iff :
      (a b : ℕ)
      → a ≤ max_exact
      → b ≤ max_exact
      → (fl.less (fl.of_int (pos a)) (fl.of_int (pos b)) ≡ true → a + 1 ≤ b)
        × (fl.less (fl.of_int (pos a)) (fl.of_int (pos b)) ≡ false → b ≤ a)
  pub at_most_iff :
      (a b : ℕ)
      → a ≤ max_exact
      → b ≤ max_exact
      → (fl.at_most (fl.of_int (pos a)) (fl.of_int (pos b)) ≡ true → a ≤ b)
        × (fl.at_most (fl.of_int (pos a)) (fl.of_int (pos b)) ≡ false → b + 1 ≤ a)
  pub add_zero :
      (n : ℕ) → n ≤ max_exact → fl.add (fl.of_int (pos n)) (fl.of_int (pos 0)) ≡ fl.of_int (pos n)
  pub sub_one :
      (n : ℕ)
      → suc n ≤ max_exact
      → fl.sub (fl.of_int (pos (suc n))) (fl.of_int (pos 1)) ≡ fl.of_int (pos n)
  pub zero_div : (n : ℕ) → fl.div (fl.of_int (pos 0)) (fl.of_int (pos (suc n))) ≡ fl.of_int (pos 0)
  -- No time refills nothing, at a finite rate.
  pub zero_mul :
      (limit window : ℕ)
      → fl.mul (fl.of_int (pos 0)) (fl.div (fl.of_int (pos limit)) (seconds fl (pos (suc window))))
        ≡ fl.of_int (pos 0)

-- Rounding keeps the order. `x` is a share of one.
pub record IsMonotone (fl : Float64) : Type 0 where
  -- Times are no longer than an int64.
  pub share :
      (elapsed window : ℕ)
      → fl.at_most
          (fl.of_int (pos 0))
          (fl.div (seconds fl (pos elapsed)) (seconds fl (pos (suc window))))
        ≡ true
  pub total :
      (x : fl.F)
      → fl.at_most (fl.of_int (pos 0)) x ≡ true
      → fl.less (fl.of_int (pos 1)) x ≡ false
      → fl.at_most x (fl.of_int (pos 1)) ≡ true
  pub one : fl.at_most (fl.of_int (pos 0)) (fl.of_int (pos 1)) ≡ true
  pub one_one : fl.at_most (fl.of_int (pos 1)) (fl.of_int (pos 1)) ≡ true
  pub complement :
      (x : fl.F)
      → fl.at_most (fl.of_int (pos 0)) x ≡ true
      → fl.at_most x (fl.of_int (pos 1)) ≡ true
      → (fl.at_most (fl.of_int (pos 0)) (fl.sub (fl.of_int (pos 1)) x) ≡ true)
        × (fl.at_most (fl.sub (fl.of_int (pos 1)) x) (fl.of_int (pos 1)) ≡ true)
  -- A count with a share of another one is not cut below the count.
  pub covers :
      (prev curr : ℕ) (x : fl.F)
      → prev ≤ max_exact
      → curr ≤ max_exact
      → fl.at_most (fl.of_int (pos 0)) x ≡ true
      → fl.at_most x (fl.of_int (pos 1)) ≡ true
      → pos curr ≤ℤ fl.to_int (fl.add (fl.mul (fl.of_int (pos prev)) x) (fl.of_int (pos curr)))
