-- ===== src/Http/Caches.antt =====
-- handler_cache.go. The key is the one that the router read from the path; a handler reads the
-- clock once for each call of the cache.
use cache_grid.Base.{
  ℕ, ◌*◌, ◌^◌, Bytes, List, [], ◌∷◌, map, Option, none, some, Bool, if◌then◌else◌, take, codes,
}
use cache_grid.Base.Int.{ℤ, pos, ltb_ℤ}
use cache_grid.Facade.Bulk.{mget, set_with_tags}
use cache_grid.Facade.Ops
use cache_grid.Facade.Parts.{Store, Marshaller, bytes, bytes_dest, Cache, Effect, CacheError, Value}
use cache_grid.Facade.Parts as Parts
use cache_grid.Http.Message.{
  Request, header, text, raw, object, Writer, set_header, write_header, write, write_json,
  write_error, Outcome, answer,
}
use cache_grid.Http.Server.{Server, Packages, read_json}
use cache_grid.Http.Text.{parse_ttl, parse_tags, base64}
use cache_grid.Limit.Float.{Float64}
use cache_grid.Rpc.Client.{Network}

-- The limit on a body that is stored: 10 << 20.
abbrev pub body_limit : ℕ
body_limit = 10 * 2 ^ 20

-- `io.ReadAll` of a limited reader.
unfoldable pub read_all : Option Bytes → Option Bytes
read_all none = none
read_all (some body) = some (take body_limit body)

unfoldable pub key_required : Writer → Writer
key_required w = write_error w 400 (codes "key is required")

-- The bytes that `Get` reads into a `[]byte`.
unfoldable pub raw_value : {V : Type 0} → Value V → Bytes
raw_value (bytes b) = b
raw_value (Parts.other _) = []

-- The answer to a hit, with the TTL if there is one.
unfoldable pub write_value : Packages → Writer → Bytes → ℤ → Writer
write_value p w value ttl =
    let w₁ = set_header w (codes "Content-Type") (codes "application/octet-stream") in
    let w₂ =
      if ltb_ℤ (pos 0) ttl then set_header w₁ (codes "X-Ttl") (p.duration_string ttl) else w₁ in
    write (write_header w₂ 200) (raw value)

module _ (matches : Bytes → Bytes → Bool) {V : Type 0} (m : Marshaller V) {st : Store}
    {n : Network} where
  -- With tags or without.
  unfoldable pub store_body :
      Cache st n → Bytes → Bytes → ℤ → List Bytes → ℕ → Cache st n × Option CacheError × List Effect
  store_body c key body ttl [] now = Ops.set matches m c key (bytes body) ttl now
  store_body c key body ttl (t ∷ tags) now =
      set_with_tags matches m c key (bytes body) ttl (t ∷ tags) now

module _ (matches : Bytes → Bytes → Bool) {V : Type 0} (m : Marshaller V) (p : Packages)
    {st : Store} {n : Network} {fl : Float64} where
  unfoldable pub handle_get :
      Bytes → (ℕ → ℕ) → Server st n fl → Writer → Request → Outcome (Server st n fl)
  unfolding raw_value write_value key_required
  handle_get [] clock s w r = answer s (key_required w) []
  handle_get (k ∷ key) clock s w r =
      let (c, found, effects) = Ops.get matches m s.cache (k ∷ key) bytes_dest (clock 0) in
      elim found [
        | none ↦ answer (record s { cache = c }) (write_error w 404 (codes "key not found")) effects
        | some value ↦
            let (c', ttl) = Ops.ttl matches m c (k ∷ key) (clock 1) in
            answer (record s { cache = c' }) (write_value p w (raw_value value) ttl) effects
      ]

  unfoldable pub handle_set :
      Bytes → (ℕ → ℕ) → Server st n fl → Writer → Request → Outcome (Server st n fl)
  unfolding store_body key_required
  handle_set [] clock s w r = answer s (key_required w) []
  handle_set (k ∷ key) clock s w r = elim (read_all r.body) [
    | none ↦ answer s (write_error w 400 (codes "failed to read body")) []
    | some body ↦
        let ttl = parse_ttl p.parse_duration (header r (codes "X-Ttl")) in
        let tags = parse_tags (header r (codes "X-Tags")) in
        let (c, err, effects) = store_body matches m s.cache (k ∷ key) body ttl tags (clock 0) in
        elim err [
          | some e ↦ answer (record s { cache = c }) (write_error w 500 (p.error_text e)) effects
          | none ↦ answer (record s { cache = c }) (write_header w 204) effects
        ]
  ]

  unfoldable pub handle_delete :
      Bytes → (ℕ → ℕ) → Server st n fl → Writer → Request → Outcome (Server st n fl)
  unfolding key_required
  handle_delete [] clock s w r = answer s (key_required w) []
  handle_delete (k ∷ key) clock s w r =
      let (c, effects) = Ops.delete matches m s.cache (k ∷ key) (clock 0) in
      answer (record s { cache = c }) (write_header w 204) effects

  unfoldable pub handle_exists :
      Bytes → (ℕ → ℕ) → Server st n fl → Writer → Request → Outcome (Server st n fl)
  handle_exists [] clock s w r = answer s (write_header w 400) []
  handle_exists (k ∷ key) clock s w r =
      let (c, ok) = Ops.exists matches m s.cache (k ∷ key) (clock 0) in
      answer (record s { cache = c }) (if ok then write_header w 200 else write_header w 404) []

  unfoldable pub handle_mget :
      (ℕ → ℕ) → Server st n fl → Writer → Request → Outcome (Server st n fl)
  handle_mget clock s w r = elim (read_json p.decode_keys r.body) [
    | none ↦ answer s (write_error w 400 (codes "invalid JSON body")) []
    | some keys ↦
        let (c, results, effects) = mget matches m s.cache keys (clock 0) in
        let fields = map (λ b. (b.0, text (base64 b.1))) results in
        answer (record s { cache = c }) (write_json w 200 (object fields)) effects
  ]
