-- ===== src/Web/Limited.antt =====
-- `HTTPRateLimit`.
use cache_grid.Base.{ℕ, [], ◌++◌, if◌then◌else◌, codes}
use cache_grid.Base.Int.{ℤ}
use cache_grid.Facade.Limits.{RateLimitOptions, RateLimitState, rate_limit}
use cache_grid.Facade.Parts.{Store}
use cache_grid.Http.Message.{Writer, set_header, answer}
use cache_grid.Http.Routes.{plain_error}
use cache_grid.Http.Server.{decimal_ℤ}
use cache_grid.Limit.Float.{Float64}
use cache_grid.Rpc.Client.{Network}
use cache_grid.Web.Visit.{App, VisitHandler, client_ip}

-- The headers that say what is left. `unix` is `Time.Unix`.
unfoldable pub limit_headers : (ℕ → ℤ) → Writer → RateLimitState → Writer
limit_headers unix w state =
    let w₁ = set_header w (codes "X-Ratelimit-Limit") (decimal_ℤ state.limit) in
    let w₂ = set_header w₁ (codes "X-Ratelimit-Remaining") (decimal_ℤ state.remaining) in
    set_header w₂ (codes "X-Ratelimit-Reset") (decimal_ℤ (unix state.resets_at))

module _ {st : Store} {n : Network} {fl : Float64} {A : Type 0} where
  unfoldable pub http_rate_limit :
      (ℕ → ℤ) → ℤ → ℤ → ℕ → VisitHandler (App st n fl A) → VisitHandler (App st n fl A)
  unfolding client_ip limit_headers
  http_rate_limit unix limit window now next s w v =
      let key = codes "ratelimit:" ++ client_ip v in
      let opts : RateLimitOptions = record { limit = limit; window = window } in
      let (c, (allowed, state)) = rate_limit s.limiters key opts now in
      let s' = record s { limiters = c } in
      let w' = limit_headers unix w state in
      let served = next s' w' v in
      if allowed then served else answer s' (plain_error w' 429 (codes "rate limit exceeded")) []
