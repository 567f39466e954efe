-- ===== src/Tests/Counters.antt =====
-- Counters of internal/cache/shard.go over a msgpack that writes a number as one digit.
use cache_grid.Base.{
  ℕ, ◌<◌, ◌^◌, ◌-◌, ◌≡◌, refl, Bytes, List, [], ◌∷◌, Option, none, some, arith, inl, ltb,
  if◌then◌else◌,
}
use cache_grid.Base.Int.{pos}
use cache_grid.Shard.Codec.{Msgpack, IsFaithful}
use cache_grid.Shard.Entry.{Entry}
use cache_grid.Shard.Ops
use cache_grid.Shard.Ops.{find, expiry, preserved_ttl}
use cache_grid.Shard.State.{Shard, new_shard}
use cache_grid.Shard.Counter.{incr_ttl_lem}
use cache_grid.Shard.Spec.{cells, store_cell}
use cache_grid.Shard.Sums.{Call, Counts, series, running_sums, last_sum, series-running_sums}
use cache_grid.Shard.Valid.{IsValid, new_shard-IsValid, Step-IsValid, set}
use cache_grid.Tests.Data.{key_a, shard_code}

abbrev pub digits : Msgpack
digits = record { marshal = λ n. some (n ∷ []); unmarshal = one_digit }
  where
    one_digit : Bytes → Option ℕ
    one_digit [] = none
    one_digit (n ∷ _) = if ltb n (2 ^ 64) then some n else none

digits-IsFaithful : IsFaithful digits
digits-IsFaithful = record { written = λ n h. (n ∷ [], refl, ground arith); in_range = in_range }
  where
    in_range : (b : Bytes) (n : ℕ) → digits.unmarshal b ≡ some n → n < 2 ^ 64
    in_range [] n h = cc
    in_range (x ∷ b) n h = ground arith

-- An unlimited shard in which a counter stands at 41.
abbrev unlimited : Shard
unlimited = new_shard (pos 0)

abbrev counting : Shard
counting = (Ops.set unlimited key_a (41 ∷ []) (pos 0) 10).0

abbrev counter_41 : Entry
counter_41 = record { key = key_a; value = 41 ∷ []; expires_at = none; size = 186; element = 0 }

counting-IsValid : IsValid counting
counting-IsValid =
    Step-IsValid (set unlimited key_a (41 ∷ []) (pos 0) 10) (new_shard-IsValid (pos 0))

abbrev calls : List Call
calls =
    record { delta = 2; t₁ = 1; t₂ = 1; t₃ = 2 }
    ∷ record { delta = 2 ^ 64 - 1; t₁ = 3; t₂ = 3; t₃ = 3 }
    ∷ []

-- From 2, an increment by -1.
series_run : (series digits key_a (pos 0) calls unlimited).1 ≡ some 2 ∷ some 1 ∷ []
unfolding shard_code series
series_run = refl

series-running_sums_example :
    ((series digits key_a (pos 0) calls unlimited).1 ≡ running_sums 0 calls)
    × Counts digits (series digits key_a (pos 0) calls unlimited).0 key_a (last_sum 0 calls)
unfolding shard_code
series-running_sums_example =
    series-running_sums digits digits-IsFaithful key_a (pos 0) refl calls unlimited 0
      (omega arith, (omega arith, tt)) (new_shard-IsValid (pos 0)) refl (inl (refl, refl))

-- A counter that expires at 20.
abbrev expiring : Shard
expiring = (Ops.set unlimited key_a (41 ∷ []) (pos 10) 10).0

abbrev counter_20 : Entry
counter_20 = record { key = key_a; value = 41 ∷ []; expires_at = some 20; size = 186; element = 0 }

expiring-IsValid : IsValid expiring
expiring-IsValid =
    Step-IsValid (set unlimited key_a (41 ∷ []) (pos 10) 10) (new_shard-IsValid (pos 0))

-- At its last instant.
incr_ttl_lem_example :
    let (s', result, _) = Ops.incr digits expiring key_a 2 (pos 60) 20 20 20 in
    (b : Bytes) × (digits.unmarshal b ≡ some 43)
    × (result ≡ some 43)
    × (cells s'
        ≡ store_cell
            (pos 0)
            (cells expiring)
            (record { key = key_a; value = b; expires_at = none }))
unfolding shard_code
incr_ttl_lem_example =
    incr_ttl_lem digits expiring key_a 2 (pos 60) 20 20 20 20 41 counter_20 digits-IsFaithful
      expiring-IsValid refl refl (omega arith) (omega arith) refl
