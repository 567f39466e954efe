-- ===== src/Limit/Steps.antt =====
-- One call of `SlidingWindow`: where the window of the key is then, and what it has counted.
use cache_grid.Base.{
  ℕ, suc, ◌+◌, ◌-◌, ◌*◌, ◌≤◌, ◌<◌, ◌≡◌, refl, ◌∙◌, Bytes, Bytes-discrete, true, if◌then◌else◌,
  arith,
}
use cache_grid.Base.Int.{pos, sub_ℕ, ◌≤ℤ◌, ◌+ℤ◌}
use cache_grid.Base.GoMap.{lookup-insert_self}
use cache_grid.Lock.Engine.{add_time}
use cache_grid.Limit.Float.{Float64, max_exact, IsMonotone}
use cache_grid.Limit.Bucket.{State}
use cache_grid.Limit.Window.{
  Window, SlidingWindow, window_of, advance, window_progress, estimated_count, count_request, allow,
}

abbrev pub passed : State → ℕ
passed s = if s.allowed then 1 else 0

-- Within the window, in the next one, or later.
advance_within :
    (w : Window) (len now : ℕ)
    → w.curr_start ≤ now
    → now < w.curr_start + len
    → advance w (pos len) now ≡ w
unfolding advance ◌+ℤ◌
advance_within w len now start soon = ground arith

advance_next :
    (w : Window) (len now : ℕ)
    → w.curr_start + len ≤ now
    → now < w.curr_start + 2 * len
    → advance w (pos len) now
      ≡ record w { prev_count = w.curr_count; curr_count = pos 0; curr_start = w.curr_start + len }
unfolding advance ◌+ℤ◌ add_time
advance_next w len now over soon = ground arith

advance_past :
    (w : Window) (len now : ℕ)
    → w.curr_start + 2 * len ≤ now
    → advance w (pos len) now
      ≡ record w { prev_count = pos 0; curr_count = pos 0; curr_start = now }
unfolding advance ◌+ℤ◌
advance_past w len now over = ground arith

-- A window that starts at `s`, with `c` requests, no more than the limit in the one before.
abbrev pub IsAt : Window → ℕ → ℕ → ℕ → Type 0
IsAt w limit s c =
    (p : ℕ) × (w.prev_count ≡ pos p) × (p ≤ limit) × (w.curr_count ≡ pos c) × (w.curr_start ≡ s)

abbrev pub Runs : SlidingWindow → Bytes → ℕ → ℕ → ℕ → ℕ → Type 0
Runs sw key limit l s c =
    (now : ℕ) → IsAt (window_of sw key (pos limit) (pos (suc l)) now) limit s c

module _ (fl : Float64) where
  abbrev pub after : SlidingWindow → Bytes → ℕ → ℕ → ℕ → SlidingWindow
  after sw key limit l now = (allow fl sw key (pos limit) (pos (suc l)) now).0

  abbrev pub bit : SlidingWindow → Bytes → ℕ → ℕ → ℕ → ℕ
  bit sw key limit l now = passed (allow fl sw key (pos limit) (pos (suc l)) now).1

module _ (fl : Float64) (mono : IsMonotone fl) where
  clamped :
      (x : fl.F)
      → fl.at_most (fl.of_int (pos 0)) x ≡ true
      → let y = if fl.less (fl.of_int (pos 1)) x then fl.of_int (pos 1) else x in
        (fl.at_most (fl.of_int (pos 0)) y ≡ true) × (fl.at_most y (fl.of_int (pos 1)) ≡ true)
  clamped x h = ground (arith, mono.one, mono.one_one, mono.total x h)

  elapsed_pos : (s now : ℕ) → s ≤ now → sub_ℕ now s ≡ pos (now - s)
  elapsed_pos s now h = ground arith

  progress_share :
      (w : Window) (l now : ℕ)
      → w.curr_start ≤ now
      → (fl.at_most (fl.of_int (pos 0)) (window_progress fl w (pos (suc l)) now) ≡ true)
        × (fl.at_most (window_progress fl w (pos (suc l)) now) (fl.of_int (pos 1)) ≡ true)
  unfolding window_progress
  progress_share w l now start =
      rw (elapsed_pos w.curr_start now start) (clamped _ (mono.share (now - w.curr_start) l))

  -- The estimate is no less than the requests of the current window.
  estimate_covers :
      (w : Window) (p c l now : ℕ)
      → w.prev_count ≡ pos p
      → w.curr_count ≡ pos c
      → w.curr_start ≤ now
      → p ≤ max_exact
      → c ≤ max_exact
      → pos c ≤ℤ fl.to_int (estimated_count fl w (pos (suc l)) now)
  unfolding estimated_count
  estimate_covers w p c l now prev curr start le_p le_c =
      let (low, high) = progress_share w l now start in
      let (weight_low, weight_high) = mono.complement _ low high in
      rw (prev, curr) (mono.covers p c _ le_p le_c weight_low weight_high)

  count_request_lem :
      (w : Window) (p c limit l now : ℕ)
      → w.prev_count ≡ pos p
      → w.curr_count ≡ pos c
      → w.curr_start ≤ now
      → p ≤ max_exact
      → c ≤ limit
      → limit ≤ max_exact
      → let (w', state) = count_request fl w (pos limit) (pos (suc l)) now in
        (w'.prev_count ≡ pos p)
        × (w'.curr_count ≡ pos (c + passed state))
        × (w'.curr_start ≡ w.curr_start)
        × (c + passed state ≤ limit)
  unfolding count_request ◌+ℤ◌
  count_request_lem w p c limit l now prev curr start le_p le_c le =
      let covered = estimate_covers w p c l now prev curr start le_p (omega arith) in
      ground (arith, covered, prev, curr)

  window_of-allow :
      (sw : SlidingWindow) (key : Bytes) (limit l now later : ℕ)
      → let w = advance (window_of sw key (pos limit) (pos (suc l)) now) (pos (suc l)) now in
        window_of (after fl sw key limit l now) key (pos limit) (pos (suc l)) later
        ≡ record ((count_request fl w (pos limit) (pos (suc l)) now).0) {
          limit = pos limit;
          window_len = pos (suc l);
        }
  unfolding allow window_of
  window_of-allow sw key limit l now later =
      rw (allow, window_of, lookup-insert_self Bytes-discrete key) refl

  -- A call that finds the window at `s`, once it has moved on, with `c` requests.
  allow_step :
      (sw : SlidingWindow) (key : Bytes) (limit l now s c : ℕ)
      → IsAt (advance (window_of sw key (pos limit) (pos (suc l)) now) (pos (suc l)) now) limit s c
      → s ≤ now
      → c ≤ limit
      → limit ≤ max_exact
      → Runs (after fl sw key limit l now) key limit l s (c + bit fl sw key limit l now)
        × (c + bit fl sw key limit l now ≤ limit)
  unfolding allow
  allow_step sw key limit l now s c (p, prev, le_p, curr, start) soon le_c le =
      let w = advance (window_of sw key (pos limit) (pos (suc l)) now) (pos (suc l)) now in
      let (prev', curr', start', fits) =
        count_request_lem w p c limit l now prev curr (rw start soon) (omega arith) le_c le in
      (
        λ later.
            rw (window_of-allow sw key limit l now later) (p, prev', le_p, curr', start' ∙ start),
        fits,
      )

  pub allow_within :
      (sw : SlidingWindow) (key : Bytes) (limit l now s c : ℕ)
      → IsAt (window_of sw key (pos limit) (pos (suc l)) now) limit s c
      → s ≤ now
      → now < s + suc l
      → c ≤ limit
      → limit ≤ max_exact
      → Runs (after fl sw key limit l now) key limit l s (c + bit fl sw key limit l now)
        × (c + bit fl sw key limit l now ≤ limit)
  allow_within sw key limit l now s c (p, prev, le_p, curr, start) from soon le_c le =
      let w = window_of sw key (pos limit) (pos (suc l)) now in
      let same = advance_within w (suc l) now (rw start from) (rw start soon) in
      allow_step sw key limit l now s c (rw same (p, prev, le_p, curr, start)) from le_c le

  pub allow_next :
      (sw : SlidingWindow) (key : Bytes) (limit l now s c : ℕ)
      → IsAt (window_of sw key (pos limit) (pos (suc l)) now) limit s c
      → s + suc l ≤ now
      → now < s + 2 * suc l
      → c ≤ limit
      → limit ≤ max_exact
      → Runs (after fl sw key limit l now) key limit l (s + suc l) (0 + bit fl sw key limit l now)
        × (0 + bit fl sw key limit l now ≤ limit)
  allow_next sw key limit l now s c (p, prev, le_p, curr, start) over soon le_c le =
      let w = window_of sw key (pos limit) (pos (suc l)) now in
      let next = advance_next w (suc l) now (rw start over) (rw start soon) in
      allow_step sw key limit l now (s + suc l) 0 (rw (next, start) (c, curr, le_c, refl, refl))
        over (omega arith) le

  pub allow_past :
      (sw : SlidingWindow) (key : Bytes) (limit l now s c : ℕ)
      → IsAt (window_of sw key (pos limit) (pos (suc l)) now) limit s c
      → s + 2 * suc l ≤ now
      → limit ≤ max_exact
      → Runs (after fl sw key limit l now) key limit l now (0 + bit fl sw key limit l now)
        × (0 + bit fl sw key limit l now ≤ limit)
  allow_past sw key limit l now s c (p, prev, le_p, curr, start) over le =
      let w = window_of sw key (pos limit) (pos (suc l)) now in
      let past = advance_past w (suc l) now (rw start over) in
      allow_step sw key limit l now now 0 (rw past (0, refl, omega arith, refl, refl)) (omega arith)
        (omega arith) le
