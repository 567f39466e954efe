-- ===== src/Facade/Limits.antt =====
-- ratelimit.go: the limiters of the cache. They share nothing with the rest of its state, and
-- stand in a record of their own.
use cache_grid.Base.{ℕ, Bytes, Bool}
use cache_grid.Base.Int.{ℤ}
use cache_grid.Limit.Float.{Float64}
use cache_grid.Limit.Bucket.{State, TokenBucket, new_token_bucket}
use cache_grid.Limit.Bucket as Bucket
use cache_grid.Limit.Window.{SlidingWindow, new_sliding_window}
use cache_grid.Limit.Window as Window

pub record Limiters (fl : Float64) : Type 0 where
  pub token_bucket : TokenBucket fl
  pub sliding_window : SlidingWindow

-- `RateLimitOptions` and `SlidingWindowOptions`.
pub record RateLimitOptions : Type 0 where
  pub limit : ℤ
  pub window : ℤ

pub record RateLimitState : Type 0 where
  pub allowed : Bool
  pub remaining : ℤ
  pub limit : ℤ
  pub resets_at : ℕ

unfoldable pub state_from_internal : State → RateLimitState
state_from_internal s = record {
  allowed = s.allowed;
  remaining = s.remaining;
  limit = s.limit;
  resets_at = s.resets_at;
}

unfoldable pub new_limiters : (fl : Float64) → Limiters fl
new_limiters fl = record { token_bucket = new_token_bucket; sliding_window = new_sliding_window }

module _ {fl : Float64} where
  unfoldable pub rate_limit :
      Limiters fl → Bytes → RateLimitOptions → ℕ → Limiters fl × (Bool × RateLimitState)
  unfolding state_from_internal
  rate_limit c key opts now =
      let (tb, s) = Bucket.allow c.token_bucket key opts.limit opts.window now in
      let state = state_from_internal s in (record c { token_bucket = tb }, (state.allowed, state))

  unfoldable pub rate_limit_sliding :
      Limiters fl → Bytes → RateLimitOptions → ℕ → Limiters fl × (Bool × RateLimitState)
  unfolding state_from_internal
  rate_limit_sliding c key opts now =
      let (sw, s) = Window.allow fl c.sliding_window key opts.limit opts.window now in
      let state = state_from_internal s in
      (record c { sliding_window = sw }, (state.allowed, state))
