-- ===== src/Limit/Burst.antt =====
-- What `TokenBucket` lets pass at one instant.
use cache_grid.Base.{
  ℕ, zero, suc, ◌-◌, ◌≤◌, ◌≡◌, refl, Bytes, Bytes-discrete, none, leb, if◌then◌else◌, lookup,
  replicate, arith,
}
use cache_grid.Base.Int.{ℤ, pos, sub_ℕ}
use cache_grid.Base.GoMap.{lookup-insert_self}
use cache_grid.Limit.Float.{Float64, seconds, max_exact, IsExact}
use cache_grid.Limit.Bucket.{Bucket, TokenBucket, new_bucket, bucket_of, refill, take_token, allow}
use cache_grid.Limit.Calls.{count_allowed, take_all}

module _ {fl : Float64} (exact : IsExact fl) where
  no_seconds : seconds fl (pos 0) ≡ fl.of_int (pos 0)
  unfolding seconds
  no_seconds = rw (seconds, exact.zero_div 999999999) (exact.add_zero 0 (omega arith))

  no_time : (now : ℕ) → sub_ℕ now now ≡ pos 0
  no_time now = ground arith

  -- Nothing comes to the tokens at the instant of the last fill.
  tokens_now :
      (n limit window now : ℕ)
      → n ≤ max_exact
      → fl.add (fl.of_int (pos n)) (
          fl.mul
            (seconds fl (sub_ℕ now now))
            (fl.div (fl.of_int (pos limit)) (seconds fl (pos (suc window)))))
        ≡ fl.of_int (pos n)
  tokens_now n limit window now le =
      rw (no_time now, no_seconds, exact.zero_mul limit window) (exact.add_zero n le)

  capped :
      (n limit : ℕ)
      → n ≤ limit
      → limit ≤ max_exact
      → (if fl.less (fl.of_int (pos limit)) (fl.of_int (pos n))
          then fl.of_int (pos limit)
          else fl.of_int (pos n))
        ≡ fl.of_int (pos n)
  capped n limit fits le = ground (arith, exact.less_iff limit n le (omega arith))

  -- A bucket that was filled now keeps its tokens.
  refill_now :
      (b : Bucket fl) (n limit window now : ℕ)
      → b.tokens ≡ fl.of_int (pos n)
      → b.last_fill ≡ now
      → n ≤ limit
      → limit ≤ max_exact
      → (refill b (pos limit) (pos (suc window)) now).tokens ≡ fl.of_int (pos n)
  unfolding refill
  refill_now b n limit window now full filled fits le =
      rw (full, filled, tokens_now n limit window now (omega arith)) (capped n limit fits le)

  -- A token is taken if there is one.
  take_token_lem :
      (b : Bucket fl) (n : ℕ) (limit window : ℤ) (now : ℕ)
      → b.tokens ≡ fl.of_int (pos n)
      → n ≤ max_exact
      → ((take_token b limit window now).0.tokens ≡ fl.of_int (pos (n - 1)))
        × ((take_token b limit window now).1.allowed ≡ leb 1 n)
        × ((take_token b limit window now).0.last_fill ≡ b.last_fill)
  unfolding take_token
  take_token_lem b zero limit window now full le =
      rw full (ground (arith, exact.at_most_iff 1 0 (omega arith) (omega arith)))
  take_token_lem b (suc n) limit window now full le =
      rw full (ground (arith, exact.at_most_iff 1 (suc n) (omega arith) le, exact.sub_one n le))

  bucket_of-allow :
      (tb : TokenBucket fl) (key : Bytes) (limit window limit' window' : ℤ) (now now' : ℕ)
      → bucket_of (allow tb key limit window now).0 key limit' window' now'
        ≡ (take_token
            (refill (bucket_of tb key limit window now) limit window now)
            limit
            window
            now).0
  unfolding allow bucket_of
  bucket_of-allow tb key limit window limit' window' now now' =
      rw (allow, bucket_of, lookup-insert_self Bytes-discrete key) refl

  -- The bucket of the key, a new one if there is none, has `n` tokens and was filled now.
  abbrev Holds : TokenBucket fl → Bytes → ℕ → ℕ → ℕ → ℕ → Type 0
  Holds tb key n limit window now =
      let b = bucket_of tb key (pos limit) (pos (suc window)) now in
      (b.tokens ≡ fl.of_int (pos n)) × (b.last_fill ≡ now)

  allow_now :
      (tb : TokenBucket fl) (key : Bytes) (n limit window now : ℕ)
      → Holds tb key n limit window now
      → n ≤ limit
      → limit ≤ max_exact
      → Holds (allow tb key (pos limit) (pos (suc window)) now).0 key (n - 1) limit window now
        × ((allow tb key (pos limit) (pos (suc window)) now).1.allowed ≡ leb 1 n)
  unfolding allow
  allow_now tb key n limit window now (full, filled) fits le =
      let b = bucket_of tb key (pos limit) (pos (suc window)) now in
      let kept = refill_now b n limit window now full filled fits le in
      let (left, granted, when) =
        take_token_lem (refill b (pos limit) (pos (suc window)) now) n (pos limit)
          (pos (suc window)) now kept (omega arith) in
      let same =
        bucket_of-allow tb key (pos limit) (pos (suc window)) (pos limit) (pos (suc window)) now
          now in
      rw same ((left, when), granted)

  -- A run of calls at one instant.
  take_all_now :
      (times n : ℕ) (tb : TokenBucket fl) (key : Bytes) (limit window now : ℕ)
      → Holds tb key n limit window now
      → n ≤ limit
      → limit ≤ max_exact
      → count_allowed (take_all tb key (pos limit) (pos (suc window)) (replicate times now)).1
        ≡ (if leb times n then times else n)
  unfolding take_all
  take_all_now zero n tb key limit window now holds fits le = ground arith
  take_all_now (suc times) n tb key limit window now holds fits le =
      let (held, granted) = allow_now tb key n limit window now holds fits le in
      let rest =
        take_all_now times (n - 1) (allow tb key (pos limit) (pos (suc window)) now).0 key limit
          window now held (omega arith) le in
      rw (granted, rest) (ground arith)

-- Over a float64 that is exact on small integers, a key that the token bucket does not know, and a
-- positive window: of any number of calls at one instant, exactly the first `limit` are allowed, no
-- matter how many follow.
pub allow_burst :
    {fl : Float64} (exact : IsExact fl) (tb : TokenBucket fl) (key : Bytes)
    (times limit window now : ℕ)
    → lookup Bytes-discrete key tb.buckets ≡ none
    → limit ≤ max_exact
    → count_allowed (take_all tb key (pos limit) (pos (suc window)) (replicate times now)).1
      ≡ (if leb times limit then times else limit)
unfolding bucket_of new_bucket
allow_burst exact tb key times limit window now absent le =
    take_all_now exact times limit tb key limit window now (rw (bucket_of, absent) (refl, refl))
      (omega arith) le
