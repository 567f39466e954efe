-- ===== src/Http/Server.antt =====
-- `Server` of internal/server/server.go, what its handlers use of the packages around it, and the
-- structs that they decode.
use cache_grid.Base.{ℕ, zero, suc, ◌+◌, Bytes, List, [], ◌∷◌, Option, none, some}
use cache_grid.Base.Int.{ℤ, pos, negsuc}
use cache_grid.Facade.Limits.{Limiters}
use cache_grid.Facade.Parts.{Store, Cache, CacheError}
use cache_grid.Limit.Float.{Float64}
use cache_grid.Ring.State.{decimal_fuel}
use cache_grid.Rpc.Client.{Network}

-- The logger is left out. The limiters are those of the cache.
pub record Server (st : Store) (n : Network) (fl : Float64) : Type 0 where
  pub cache : Cache st n
  pub limiters : Limiters fl
  pub start_time : ℕ

pub record AcquireRequest : Type 0 where
  pub ttl : Bytes
  pub retry_count : ℤ
  pub retry_delay : Bytes

pub record LimitRequest : Type 0 where
  pub limit : ℤ
  pub window : Bytes
  pub algorithm : Bytes

-- Go's `time.ParseDuration`, `Duration.String`, `Time.Format(time.RFC3339)`, `Time.Unix` and
-- `%.0f` of a duration in seconds; what `Decode` of a body leaves in the structs of the handlers,
-- or none for its error; the texts of the errors; and what runtime tells at a time.
pub record Packages : Type 0 where
  pub parse_duration : Bytes → Option ℤ
  pub duration_string : ℤ → Bytes
  pub format_time : Option ℕ → Bytes
  pub unix : ℕ → ℤ
  pub whole_seconds : ℤ → Bytes
  pub decode_keys : Bytes → Option (List Bytes)
  pub decode_acquire : Bytes → Option AcquireRequest
  pub decode_extend : Bytes → Option Bytes
  pub decode_limit : Bytes → Option LimitRequest
  pub error_text : CacheError → Bytes
  pub goroutines : ℕ → ℕ
  pub alloc : ℕ → ℕ
  pub sys : ℕ → ℕ

-- `%d`.
unfoldable pub decimal : ℕ → Bytes
unfolding decimal_fuel
decimal n = decimal_fuel (suc n) n []

unfoldable pub decimal_ℤ : ℤ → Bytes
unfolding decimal
decimal_ℤ (pos n) = decimal n
decimal_ℤ (negsuc n) = b'-' ∷ decimal (n + 1)

-- What a duration in a body means: the default for an error, and for one that is not positive.
unfoldable pub duration_or : Packages → ℤ → Bytes → ℤ
duration_or p default s = elim (p.parse_duration s) [
  | none ↦ default
  | some (pos (suc d)) ↦ pos (suc d)
  | some (pos zero) ↦ default
  | some (negsuc _) ↦ default
]

-- A decoder on a body that may fail to be read.
unfoldable pub read_json : {A : Type 0} → (Bytes → Option A) → Option Bytes → Option A
read_json decode none = none
read_json decode (some body) = decode body
