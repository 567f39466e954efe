-- ===== src/Http/Bursts.antt =====
-- Rate limits over HTTP: handler_ratelimit.go on the token bucket of the cache.
use cache_grid.Base.{
  ℕ, zero, suc, ◌+◌, ◌-◌, ◌≤◌, ◌≡◌, ◌≢◌, refl, sym, ◌∙◌, Bytes, Bytes-discrete, List, [], ◌∷◌,
  Option, none, some, Bool, true, false, if_neg, if◌then◌else◌, leb, ◌==◌, lookup, replicate, codes,
  arith,
}
use cache_grid.Base.Int.{ℤ, pos, negsuc, ltb_ℤ}
use cache_grid.Facade.Limits.{RateLimitState, rate_limit, state_from_internal}
use cache_grid.Facade.Parts.{Store}
use cache_grid.Http.Limits.{default_window, check_limit, handle_rate_limit, write_state}
use cache_grid.Http.Message.{Request, new_writer, set_header, write_header, write, write_json}
use cache_grid.Http.Server.{Server, Packages, LimitRequest, duration_or, read_json}
use cache_grid.Limit.Bucket as Bucket
use cache_grid.Limit.Bucket.{TokenBucket}
use cache_grid.Limit.Burst.{allow_burst}
use cache_grid.Limit.Calls.{count_allowed, take_all}
use cache_grid.Limit.Float.{Float64, IsExact, max_exact}
use cache_grid.Rpc.Client.{Network}

abbrev pub count_status : ℕ → List (Option ℕ) → ℕ
count_status code [] = 0
count_status code (none ∷ rest) = count_status code rest
count_status code (some c ∷ rest) = let n = count_status code rest in if c == code then suc n else n

-- A duration that is not given is the default.
duration_or-positive :
    (p : Packages) (d : ℕ) (s : Bytes) → (w : ℕ) × (duration_or p (pos (suc d)) s ≡ pos (suc w))
unfolding duration_or
duration_or-positive p d s = by_parsed (p.parse_duration s) refl
  where
    by_parsed :
        (parsed : Option ℤ)
        → p.parse_duration s ≡ parsed
        → (w : ℕ) × (duration_or p (pos (suc d)) s ≡ pos (suc w))
    by_parsed none e = (d, rw (duration_or, e) refl)
    by_parsed (some (pos zero)) e = (d, rw (duration_or, e) refl)
    by_parsed (some (pos (suc w))) e = (w, rw (duration_or, e) refl)
    by_parsed (some (negsuc w)) e = (d, rw (duration_or, e) refl)

-- A request with a positive limit that does not ask for the sliding window.
pub record AsksFor (p : Packages) (r : Request) (limit : ℕ) : Type 0 where
  pub asked : LimitRequest
  pub decoded : read_json p.decode_limit r.body ≡ some asked
  pub limited : asked.limit ≡ pos (suc limit)
  pub bucket : asked.algorithm ≢ codes "sliding_window"

status-write_state :
    (p : Packages) (allowed : Bool) (state : RateLimitState)
    → (write_state p new_writer allowed state).status ≡ some (if allowed then 200 else 429)
unfolding write_state set_header write_header write write_json
status-write_state p true state = refl
status-write_state p false state = refl

by_answer :
    (allowed : Bool) (statuses : List (Option ℕ)) (n times : ℕ)
    → count_status 200 statuses ≡ n
    → count_status 200 statuses + count_status 429 statuses ≡ times
    → let statuses' = some (if allowed then 200 else 429) ∷ statuses in
      (count_status 200 statuses' ≡ (if allowed then suc n else n))
      × (count_status 200 statuses' + count_status 429 statuses' ≡ suc times)
by_answer true statuses n times same all = (omega arith, omega arith)
by_answer false statuses n times same all = (omega arith, omega arith)

module _ (p : Packages) {fl : Float64} {st : Store} {n : Network} where
  -- The statuses of the same request, sent again and again.
  unfoldable pub limit_all : ℕ → Bytes → ℕ → Request → Server st n fl → List (Option ℕ)
  limit_all zero key now r s = []
  limit_all (suc times) key now r s =
      let o = handle_rate_limit p key (λ i. now) s new_writer r in
      o.writer.status ∷ limit_all times key now r o.state

  check_limit_lem :
      (key : Bytes) (now limit window : ℕ) (r : Request) (s : Server st n fl)
      → (asks : AsksFor p r limit)
      → duration_or p default_window asks.asked.window ≡ pos (suc window)
      → check_limit p s.limiters key asks.asked now
        ≡ rate_limit s.limiters key
            (record { limit = pos (suc limit); window = pos (suc window) })
            now
  unfolding check_limit
  check_limit_lem key now limit window r s asks lasting =
      rw
        (
          check_limit,
          if_neg (Bytes-discrete asks.asked.algorithm (codes "sliding_window")) asks.bucket,
          asks.limited,
          lasting,
        )
        refl

  one_request :
      (c : ℕ) (key : Bytes) (now limit window : ℕ) (r : Request) (s : Server st n fl)
      → (asks : AsksFor p r limit)
      → duration_or p default_window asks.asked.window ≡ pos (suc window)
      → let o = handle_rate_limit p (c ∷ key) (λ i. now) s new_writer r in
        let (tb, taken) =
          Bucket.allow s.limiters.token_bucket (c ∷ key) (pos (suc limit)) (pos (suc window)) now in
        (o.writer.status ≡ some (if taken.allowed then 200 else 429))
        × (o.state.limiters.token_bucket ≡ tb)
  unfolding handle_rate_limit rate_limit
  one_request c key now limit window r s asks lasting =
      let positive : ltb_ℤ (pos 0) asks.asked.limit ≡ true = rw asks.limited (ground arith) in
      let taken =
        (Bucket.allow s.limiters.token_bucket (c ∷ key) (pos (suc limit)) (pos (suc window))
          now).1 in
      rw
        (
          handle_rate_limit,
          asks.decoded,
          positive,
          check_limit_lem (c ∷ key) now limit window r s asks lasting,
        )
        (status-write_state p taken.allowed (state_from_internal taken), refl)

  -- The answers are those of the token bucket.
  count_status-limit_all :
      (times c : ℕ) (key : Bytes) (now limit window : ℕ) (r : Request) (s : Server st n fl)
      → (asks : AsksFor p r limit)
      → duration_or p default_window asks.asked.window ≡ pos (suc window)
      → let statuses = limit_all times (c ∷ key) now r s in
        let states =
          (take_all s.limiters.token_bucket
            (c ∷ key)
            (pos (suc limit))
            (pos (suc window))
            (replicate times now)).1 in
        (count_status 200 statuses ≡ count_allowed states)
        × (count_status 200 statuses + count_status 429 statuses ≡ times)
  unfolding limit_all take_all
  count_status-limit_all zero c key now limit window r s asks lasting = (refl, refl)
  count_status-limit_all (suc times) c key now limit window r s asks lasting =
      let o = handle_rate_limit p (c ∷ key) (λ i. now) s new_writer r in
      let (status, bucket) = one_request c key now limit window r s asks lasting in
      let (same, all) =
        count_status-limit_all times c key now limit window r o.state asks lasting in
      rw (limit_all, take_all, status, sym bucket)
        (by_answer
          (Bucket.allow s.limiters.token_bucket (c ∷ key) (pos (suc limit)) (pos (suc window))
            now).1.allowed
          (limit_all times (c ∷ key) now r o.state) _ times same all)

-- Over a float64 that is exact on small integers, requests to `handleRateLimit` at one instant that
-- ask for a positive limit, and not for the sliding window, for a key that the token bucket does not
-- know: exactly the first `limit` of them are answered by 200 and all others by 429.
pub handle_rate_limit_burst :
    (p : Packages) {fl : Float64} {st : Store} {n : Network} (exact : IsExact fl) (times c : ℕ)
    (key : Bytes) (now limit : ℕ) (r : Request) (s : Server st n fl)
    → AsksFor p r limit
    → lookup Bytes-discrete (c ∷ key) s.limiters.token_bucket.buckets ≡ none
    → suc limit ≤ max_exact
    → let statuses = limit_all p times (c ∷ key) now r s in
      (count_status 200 statuses ≡ (if leb times (suc limit) then times else suc limit))
      × (count_status 429 statuses ≡ times - suc limit)
handle_rate_limit_burst p exact times c key now limit r s asks absent le =
    let (window, lasting) = duration_or-positive p 59999999999 asks.asked.window in
    let (same, all) = count_status-limit_all p times c key now limit window r s asks lasting in
    let burst =
      allow_burst exact s.limiters.token_bucket (c ∷ key) times (suc limit) window now absent le in
    (same ∙ burst, ground (arith, same, all, burst))
