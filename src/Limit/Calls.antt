-- ===== src/Limit/Calls.antt =====
-- Series of calls of a limiter for one key, and the number of requests that they let pass.
use cache_grid.Base.{ℕ, suc, Bytes, List, [], ◌∷◌, if◌then◌else◌}
use cache_grid.Base.Int.{ℤ}
use cache_grid.Limit.Float.{Float64}
use cache_grid.Limit.Bucket.{State, TokenBucket}
use cache_grid.Limit.Bucket as Bucket
use cache_grid.Limit.Window.{SlidingWindow}
use cache_grid.Limit.Window as Window

abbrev pub count_allowed : List State → ℕ
count_allowed [] = 0
count_allowed (s ∷ states) = let rest = count_allowed states in if s.allowed then suc rest else rest

-- One call at each time.
unfoldable pub take_all :
    {fl : Float64} → TokenBucket fl → Bytes → ℤ → ℤ → List ℕ → TokenBucket fl × List State
take_all tb key limit window [] = (tb, [])
take_all tb key limit window (now ∷ times) =
    let (tb', state) = Bucket.allow tb key limit window now in
    let (tb'', states) = take_all tb' key limit window times in (tb'', state ∷ states)

unfoldable pub slide_all :
    (fl : Float64) → SlidingWindow → Bytes → ℤ → ℤ → List ℕ → SlidingWindow × List State
slide_all fl sw key limit window_len [] = (sw, [])
slide_all fl sw key limit window_len (now ∷ times) =
    let (sw', state) = Window.allow fl sw key limit window_len now in
    let (sw'', states) = slide_all fl sw' key limit window_len times in (sw'', state ∷ states)
