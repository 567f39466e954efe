-- ===== src/Limit/Bucket.antt =====
-- `State` and `TokenBucket` of internal/ratelimit/tokenbucket.go. The pointer to a bucket stays
-- inside the map, under the mutex: a bucket that is changed is put back.
use cache_grid.Base.{
  ℕ, Bytes, Bytes-discrete, List, [], none, some, Bool, true, false, if◌then◌else◌, lookup,
}
use cache_grid.Base.Int.{ℤ, pos, sub_ℕ}
use cache_grid.Base.GoMap.{insert, delete}
use cache_grid.Lock.Engine.{add_time}
use cache_grid.Limit.Float.{Float64, seconds}

pub record State : Type 0 where
  pub allowed : Bool
  pub remaining : ℤ
  pub limit : ℤ
  pub resets_at : ℕ

pub record Bucket (fl : Float64) : Type 0 where
  pub tokens : fl.F
  pub limit : ℤ
  pub last_fill : ℕ
  pub window : ℤ

pub record TokenBucket (fl : Float64) : Type 0 where
  pub buckets : List (Bytes × Bucket fl)

module _ {fl : Float64} where
  unfoldable pub new_token_bucket : TokenBucket fl
  new_token_bucket = record { buckets = [] }

  unfoldable pub new_bucket : ℤ → ℤ → ℕ → Bucket fl
  new_bucket limit window now = record {
    tokens = fl.of_int limit;
    limit = limit;
    last_fill = now;
    window = window;
  }

  -- The tokens of the elapsed time, no more than the limit.
  unfoldable pub refill : Bucket fl → ℤ → ℤ → ℕ → Bucket fl
  refill b limit window now =
      let rate = fl.div (fl.of_int limit) (seconds fl window) in
      let tokens = fl.add b.tokens (fl.mul (seconds fl (sub_ℕ now b.last_fill)) rate) in
      record {
        tokens = if fl.less (fl.of_int limit) tokens then fl.of_int limit else tokens;
        limit = limit;
        last_fill = now;
        window = window;
      }

  unfoldable pub take_token : Bucket fl → ℤ → ℤ → ℕ → Bucket fl × State
  take_token b limit window now =
      let left = fl.sub b.tokens (fl.of_int (pos 1)) in
      let resets_at = add_time now window in
      if fl.at_most (fl.of_int (pos 1)) b.tokens
      then (
        record b { tokens = left },
        record { allowed = true; remaining = fl.to_int left; limit = limit; resets_at = resets_at },
      )
      else (b, record { allowed = false; remaining = pos 0; limit = limit; resets_at = resets_at })

  -- The bucket of a key, which is made at its first call.
  unfoldable pub bucket_of : TokenBucket fl → Bytes → ℤ → ℤ → ℕ → Bucket fl
  unfolding new_bucket
  bucket_of tb key limit window now = elim (lookup Bytes-discrete key tb.buckets) [
    | none ↦ new_bucket limit window now
    | some b ↦ b
  ]

  unfoldable pub allow : TokenBucket fl → Bytes → ℤ → ℤ → ℕ → TokenBucket fl × State
  unfolding bucket_of refill take_token
  allow tb key limit window now =
      let b = refill (bucket_of tb key limit window now) limit window now in
      let (b', state) = take_token b limit window now in
      (record { buckets = insert Bytes-discrete key b' tb.buckets }, state)

  unfoldable pub reset : TokenBucket fl → Bytes → TokenBucket fl
  reset tb key = record { buckets = delete Bytes-discrete key tb.buckets }
