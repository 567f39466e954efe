-- ===== src/Limit/Window.antt =====
-- `SlidingWindow` of internal/ratelimit/slidingwindow.go.
use cache_grid.Base.{
  ℕ, Bytes, Bytes-discrete, List, [], none, some, true, false, not, if◌then◌else◌, lookup,
}
use cache_grid.Base.Int.{ℤ, pos, sub_ℕ, ◌+ℤ◌, ◌-ℤ◌, ltb_ℤ}
use cache_grid.Base.GoMap.{insert, delete}
use cache_grid.Lock.Engine.{add_time}
use cache_grid.Limit.Float.{Float64, seconds}
use cache_grid.Limit.Bucket.{State}

pub record Window : Type 0 where
  pub prev_count : ℤ
  pub curr_count : ℤ
  pub limit : ℤ
  pub window_len : ℤ
  pub curr_start : ℕ

pub record SlidingWindow : Type 0 where
  pub windows : List (Bytes × Window)

unfoldable pub new_sliding_window : SlidingWindow
new_sliding_window = record { windows = [] }

unfoldable pub new_window : ℤ → ℤ → ℕ → Window
new_window limit window_len now = record {
  prev_count = pos 0;
  curr_count = pos 0;
  limit = limit;
  window_len = window_len;
  curr_start = now;
}

-- The window of a key, which is made at its first call, with the parameters of this one.
unfoldable pub window_of : SlidingWindow → Bytes → ℤ → ℤ → ℕ → Window
unfolding new_window
window_of sw key limit window_len now =
    let w : Window = elim (lookup Bytes-discrete key sw.windows) [
      | none ↦ new_window limit window_len now
      | some w ↦ w
    ] in
    record w { limit = limit; window_len = window_len }

-- The window moves on when the current one, or both, have passed.
unfoldable pub advance : Window → ℤ → ℕ → Window
advance w window_len now =
    let elapsed = sub_ℕ now w.curr_start in
    if not (ltb_ℤ elapsed (window_len +ℤ window_len))
    then record w { prev_count = pos 0; curr_count = pos 0; curr_start = now }
    else if not (ltb_ℤ elapsed window_len)
    then record w {
      prev_count = w.curr_count;
      curr_count = pos 0;
      curr_start = add_time w.curr_start window_len;
    }
    else w

module _ (fl : Float64) where
  -- How much of the current window has passed, no more than one.
  unfoldable pub window_progress : Window → ℤ → ℕ → fl.F
  window_progress w window_len now =
      let progress = fl.div (seconds fl (sub_ℕ now w.curr_start)) (seconds fl window_len) in
      if fl.less (fl.of_int (pos 1)) progress then fl.of_int (pos 1) else progress

  unfoldable pub estimated_count : Window → ℤ → ℕ → fl.F
  unfolding window_progress
  estimated_count w window_len now =
      let prev_weight = fl.sub (fl.of_int (pos 1)) (window_progress w window_len now) in
      fl.add (fl.mul (fl.of_int w.prev_count) prev_weight) (fl.of_int w.curr_count)

  unfoldable pub count_request : Window → ℤ → ℤ → ℕ → Window × State
  unfolding estimated_count
  count_request w limit window_len now =
      let estimate = fl.to_int (estimated_count w window_len now) in
      let resets_at = add_time w.curr_start window_len in
      let remaining = (limit -ℤ estimate) -ℤ pos 1 in
      if ltb_ℤ estimate limit
      then (
        record w { curr_count = w.curr_count +ℤ pos 1 },
        record {
          allowed = true;
          remaining = if ltb_ℤ remaining (pos 0) then pos 0 else remaining;
          limit = limit;
          resets_at = resets_at;
        },
      )
      else (w, record { allowed = false; remaining = pos 0; limit = limit; resets_at = resets_at })

  unfoldable pub allow : SlidingWindow → Bytes → ℤ → ℤ → ℕ → SlidingWindow × State
  unfolding window_of advance count_request
  allow sw key limit window_len now =
      let w = advance (window_of sw key limit window_len now) window_len now in
      let (w', state) = count_request w limit window_len now in
      (record { windows = insert Bytes-discrete key w' sw.windows }, state)

unfoldable pub reset : SlidingWindow → Bytes → SlidingWindow
reset sw key = record { windows = delete Bytes-discrete key sw.windows }
