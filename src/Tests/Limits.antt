-- ===== src/Tests/Limits.antt =====
-- The limiters over a float64 that rounds to natural numbers.
use cache_grid.Base.{ℕ, ◌+◌, ◌-◌, ◌*◌, ◌/◌, ◌≤◌, ◌≡◌, refl, [], ◌∷◌, ltb, leb, lookup, arith}
use cache_grid.Base.Int.{pos, pos_part, ◌≤ℤ◌}
use cache_grid.Limit.Float.{Float64, IsExact, IsMonotone}
use cache_grid.Limit.Window.{new_sliding_window}
use cache_grid.Limit.Calls.{count_allowed, slide_all}
use cache_grid.Limit.Span.{slide_span}
use cache_grid.Tests.Data.{key_a}

abbrev pub whole : Float64
whole = record {
  F = ℕ;
  of_int = pos_part;
  to_int = pos;
  add = λ a b. a + b;
  sub = λ a b. a - b;
  mul = λ a b. a * b;
  div = λ a b. a / b;
  less = ltb;
  at_most = leb;
}

times_zero : (n : ℕ) → 0 * n ≡ 0
times_zero n = omega arith

pub whole-IsExact : IsExact whole
whole-IsExact = record {
  trunc = λ n h. refl;
  less_iff = λ a b h k. ground arith;
  at_most_iff = λ a b h k. ground arith;
  add_zero = λ n h. omega arith;
  sub_one = λ n h. omega arith;
  zero_div = λ n. ground arith;
  zero_mul = λ limit window. times_zero _;
}

above : (a c : ℕ) → pos c ≤ℤ pos (a + c)
above a c = omega arith

whole-IsMonotone : IsMonotone whole
whole-IsMonotone = record {
  share = λ elapsed window. ground arith;
  total = λ x h k. ground arith;
  one = refl;
  one_one = refl;
  complement = λ x h k. ground arith;
  covers = λ prev curr x h k low high. above (prev * x) curr;
}

slide_span_example :
    let sw' = (slide_all whole new_sliding_window key_a (pos 2) (pos 10) (4 ∷ [])).0 in
    count_allowed (slide_all whole sw' key_a (pos 2) (pos 10) (9 ∷ 12 ∷ 15 ∷ [])).1 ≤ 4
unfolding new_sliding_window lookup
slide_span_example =
    slide_span whole whole-IsMonotone new_sliding_window key_a 2 9 (4 ∷ []) 9 (12 ∷ 15 ∷ []) refl
      (omega arith, (omega arith, (omega arith, (omega arith, tt))))
      (omega arith, (omega arith, tt)) (omega arith)
