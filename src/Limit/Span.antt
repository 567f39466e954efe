-- ===== src/Limit/Span.antt =====
-- What `SlidingWindow` lets pass in the time of one window.
use cache_grid.Base.{
  ℕ, suc, ◌+◌, ◌*◌, ◌≤◌, ◌<◌, ◌≡◌, refl, Bytes, Bytes-discrete, List, [], ◌∷◌, ◌++◌, none, lookup,
  All, All-map, dec_lt, arith,
}
use cache_grid.Base.Int.{pos}
use cache_grid.Limit.Float.{Float64, max_exact, IsMonotone}
use cache_grid.Limit.Window.{SlidingWindow, new_window, window_of}
use cache_grid.Limit.Calls.{count_allowed, slide_all}
use cache_grid.Limit.Steps.{IsAt, Runs, after, bit, allow_within, allow_next, allow_past}

-- Each time is at least the one before.
abbrev pub Ordered : ℕ → List ℕ → Type 0
Ordered from [] = Unit
Ordered from (t ∷ times) = (from ≤ t) × Ordered t times

Ordered-le : (a b : ℕ) (times : List ℕ) → a ≤ b → Ordered b times → Ordered a times
Ordered-le a b [] h order = tt
Ordered-le a b (t ∷ times) h (from, order) = (omega arith, order)

module _ (fl : Float64) (mono : IsMonotone fl) where
  -- All the calls fall into the window.
  within_window :
      (times : List ℕ) (sw : SlidingWindow) (key : Bytes) (limit l s c : ℕ)
      → Runs sw key limit l s c
      → Ordered s times
      → All (λ t. t < s + suc l) times
      → c ≤ limit
      → limit ≤ max_exact
      → c + count_allowed (slide_all fl sw key (pos limit) (pos (suc l)) times).1 ≤ limit
  unfolding slide_all
  within_window [] sw key limit l s c runs order soon le_c le = omega arith
  within_window (t ∷ times) sw key limit l s c runs (from, order) (soon, all) le_c le =
      let (runs', fits) = allow_within fl mono sw key limit l t s c (runs t) from soon le_c le in
      let rest =
        within_window times (after fl sw key limit l t) key limit l s (c + bit fl sw key limit l t)
          runs' (Ordered-le s t times from order) all fits le in
      ground (arith, rest)

  -- All the calls fall into the window and the next one.
  within_two :
      (times : List ℕ) (sw : SlidingWindow) (key : Bytes) (limit l s c : ℕ)
      → Runs sw key limit l s c
      → Ordered s times
      → All (λ t. t < s + 2 * suc l) times
      → c ≤ limit
      → limit ≤ max_exact
      → c + count_allowed (slide_all fl sw key (pos limit) (pos (suc l)) times).1 ≤ 2 * limit
  unfolding slide_all
  within_two [] sw key limit l s c runs order soon le_c le = omega arith
  within_two (t ∷ times) sw key limit l s c runs (from, order) (soon, all) le_c le =
      elim (dec_lt t (s + suc l)) [
        | yes here ↦
            let (runs', fits) =
              allow_within fl mono sw key limit l t s c (runs t) from here le_c le in
            let rest =
              within_two times (after fl sw key limit l t) key limit l s
                (c + bit fl sw key limit l t) runs' (Ordered-le s t times from order) all fits le in
            ground (arith, rest)
        | no over ↦
            let (runs', fits) =
              allow_next fl mono sw key limit l t s c (runs t) (omega arith) soon le_c le in
            let rest =
              within_window times (after fl sw key limit l t) key limit l (s + suc l)
                (0 + bit fl sw key limit l t) runs'
                (Ordered-le (s + suc l) t times (omega arith) order)
                (All-map times (λ u h. omega arith) all) fits le in
            ground (arith, rest)
      ]

  -- What the limiter knows of the key at a time from `t` on.
  abbrev Knows : SlidingWindow → Bytes → ℕ → ℕ → ℕ → Type 0
  Knows sw key limit l t =
      (now : ℕ)
      → t ≤ now
      → (s : ℕ) × (c : ℕ) × IsAt (window_of sw key (pos limit) (pos (suc l)) now) limit s c
        × (s ≤ now)
        × (c ≤ limit)

  absent-Knows :
      (sw : SlidingWindow) (key : Bytes) (limit l : ℕ)
      → lookup Bytes-discrete key sw.windows ≡ none
      → Knows sw key limit l 0
  unfolding window_of new_window
  absent-Knows sw key limit l absent now le =
      (now, 0, rw (window_of, absent) (0, refl, omega arith, refl, refl), omega arith, omega arith)

  -- After a call the window holds its time.
  allow-Runs :
      (sw : SlidingWindow) (key : Bytes) (limit l t now : ℕ)
      → Knows sw key limit l t
      → t ≤ now
      → limit ≤ max_exact
      → (s : ℕ) × (c : ℕ) × Runs (after fl sw key limit l now) key limit l s c
        × (s ≤ now)
        × (now < s + suc l)
        × (c ≤ limit)
        × (bit fl sw key limit l now ≤ c)
  allow-Runs sw key limit l t now knows from le =
      let (s, c, here, started, le_c) = knows now from in
      elim (dec_lt now (s + suc l)) [
        | yes soon ↦
            let (runs, fits) =
              allow_within fl mono sw key limit l now s c here started soon le_c le in
            (s, c + bit fl sw key limit l now, runs, started, soon, fits, omega arith)
        | no over ↦ elim (dec_lt now (s + 2 * suc l)) [
          | yes soon ↦
              let (runs, fits) =
                allow_next fl mono sw key limit l now s c here (omega arith) soon le_c le in
              (
                s + suc l,
                0 + bit fl sw key limit l now,
                runs,
                omega arith,
                omega arith,
                fits,
                omega arith,
              )
          | no later ↦
              let (runs, fits) = allow_past fl mono sw key limit l now s c here (omega arith) le in
              (
                now,
                0 + bit fl sw key limit l now,
                runs,
                omega arith,
                omega arith,
                fits,
                omega arith,
              )
        ]
      ]

  Runs-Knows :
      (sw : SlidingWindow) (key : Bytes) (limit l s c t : ℕ)
      → Runs sw key limit l s c
      → s ≤ t
      → c ≤ limit
      → Knows sw key limit l t
  Runs-Knows sw key limit l s c t runs le le_c = λ now from. (s, c, runs now, omega arith, le_c)

  span_after :
      (past times : List ℕ) (sw : SlidingWindow) (key : Bytes) (limit l t first : ℕ)
      → Knows sw key limit l t
      → Ordered t (past ++ first ∷ times)
      → All (λ u. u < first + suc l) times
      → limit ≤ max_exact
      → let sw' = (slide_all fl sw key (pos limit) (pos (suc l)) past).0 in
        count_allowed (slide_all fl sw' key (pos limit) (pos (suc l)) (first ∷ times)).1 ≤ 2 * limit
  unfolding slide_all
  span_after [] times sw key limit l t first knows (from, order) soon le =
      let (s, c, runs, started, here, le_c, counted) =
        allow-Runs sw key limit l t first knows from le in
      let rest =
        within_two times (after fl sw key limit l first) key limit l s c runs
          (Ordered-le s first times started order) (All-map times (λ u h. omega arith) soon) le_c
          le in
      ground (arith, rest, counted)
  span_after (p ∷ past) times sw key limit l t first knows (from, order) soon le =
      let (s, c, runs, started, here, le_c, counted) =
        allow-Runs sw key limit l t p knows from le in
      span_after past times (after fl sw key limit l p) key limit l p first
        (Runs-Knows (after fl sw key limit l p) key limit l s c p runs started le_c) order soon le

-- Over a float64 whose rounding keeps the order: after any history of calls for a key that the
-- sliding window did not know before, and of any calls within less than one window from a first
-- one, at most twice the limit are allowed. The clock does not go back, and limit and window are
-- the same in all calls.
pub slide_span :
    (fl : Float64) (mono : IsMonotone fl) (sw : SlidingWindow) (key : Bytes) (limit l : ℕ)
    (past : List ℕ) (first : ℕ) (times : List ℕ)
    → lookup Bytes-discrete key sw.windows ≡ none
    → Ordered 0 (past ++ first ∷ times)
    → All (λ t. t < first + suc l) times
    → limit ≤ max_exact
    → let sw' = (slide_all fl sw key (pos limit) (pos (suc l)) past).0 in
      count_allowed (slide_all fl sw' key (pos limit) (pos (suc l)) (first ∷ times)).1 ≤ 2 * limit
slide_span fl mono sw key limit l past first times absent order soon le =
    span_after fl mono past times sw key limit l 0 first
      (absent-Knows fl mono sw key limit l absent) order soon le
