-- ===== src/Http/Limits.antt =====
-- handler_ratelimit.go.
use cache_grid.Base.{
  ℕ, Bytes, Bytes-discrete, [], ◌∷◌, none, some, Bool, ite, if◌then◌else◌, not, codes,
}
use cache_grid.Base.Int.{ℤ, pos, ltb_ℤ}
use cache_grid.Facade.Limits.{
  Limiters, RateLimitOptions, RateLimitState, rate_limit, rate_limit_sliding,
}
use cache_grid.Facade.Parts.{Store}
use cache_grid.Http.Caches.{key_required}
use cache_grid.Http.Message.{
  Request, number, flag, object, Writer, set_header, write_json, write_error, Outcome, answer,
}
use cache_grid.Http.Server.{Server, Packages, LimitRequest, decimal_ℤ, duration_or, read_json}
use cache_grid.Limit.Float.{Float64}
use cache_grid.Rpc.Client.{Network}

-- time.Minute
abbrev pub default_window : ℤ
default_window = pos 60000000000

unfoldable pub write_state : Packages → Writer → Bool → RateLimitState → Writer
write_state p w allowed state =
    let w₁ = set_header w (codes "X-Ratelimit-Limit") (decimal_ℤ state.limit) in
    let w₂ = set_header w₁ (codes "X-Ratelimit-Remaining") (decimal_ℤ state.remaining) in
    let w₃ = set_header w₂ (codes "X-Ratelimit-Reset") (decimal_ℤ (p.unix state.resets_at)) in
    write_json w₃ (if allowed then 200 else 429) (
      object (
        (codes "allowed", flag allowed)
        ∷ (codes "remaining", number state.remaining)
        ∷ (codes "limit", number state.limit)
        ∷ (codes "resets_at", number (p.unix state.resets_at))
        ∷ []))

module _ (p : Packages) {fl : Float64} where
  -- The switch over the algorithm.
  unfoldable pub check_limit :
      Limiters fl → Bytes → LimitRequest → ℕ → Limiters fl × (Bool × RateLimitState)
  check_limit c key req now =
      let opts : RateLimitOptions = record {
        limit = req.limit;
        window = duration_or p default_window req.window;
      } in
      ite (Bytes-discrete req.algorithm (codes "sliding_window"))
        (rate_limit_sliding c key opts now) (rate_limit c key opts now)

  unfoldable pub handle_rate_limit :
      {st : Store} {n : Network}
      → Bytes
      → (ℕ → ℕ)
      → Server st n fl
      → Writer
      → Request
      → Outcome (Server st n fl)
  unfolding write_state check_limit
  handle_rate_limit [] clock s w r = answer s (key_required w) []
  handle_rate_limit (k ∷ key) clock s w r = elim (read_json p.decode_limit r.body) [
    | none ↦ answer s (write_error w 400 (codes "invalid JSON body")) []
    | some req ↦
        let (c, (allowed, state)) = check_limit s.limiters (k ∷ key) req (clock 0) in
        if not (ltb_ℤ (pos 0) req.limit)
        then answer s (write_error w 400 (codes "limit must be > 0")) []
        else answer (record s { limiters = c }) (write_state p w allowed state) []
  ]
