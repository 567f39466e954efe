-- ===== src/Web/Cached.antt =====
-- `HTTPCache`. `encode` is the bytes of a part of a body, `hash` the text of `hashRequest` for a
-- method and a URL. A header that is set after the status was sent is left out.
use cache_grid.Base.{
  ℕ, Bytes, Bytes-discrete, List, [], ◌∷◌, ◌++◌, map, none, some, Bool, false, ◌&&◌, ltb, leb, ite,
  if◌then◌else◌, codes,
}
use mathlib.Core.List.{flatten}
use cache_grid.Base.Int.{ℤ}
use cache_grid.Facade.Ops
use cache_grid.Facade.Parts.{Store, Marshaller, bytes, other, other_dest}
use cache_grid.Http.Message.{Chunk, raw, Writer, set_header, write_header, write, Outcome, answer}
use cache_grid.Limit.Float.{Float64}
use cache_grid.Rpc.Client.{Network}
use cache_grid.Web.Visit.{Visit, App, VisitHandler}

pub record CachedResponse : Type 0 where
  pub status_code : ℕ
  pub body : Bytes
  pub headers : List (Bytes × Bytes)

-- The headers of the stored response.
unfoldable pub copy_headers : Writer → List (Bytes × Bytes) → Writer
copy_headers w [] = w
copy_headers w ((name, value) ∷ headers) = copy_headers (set_header w name value) headers

unfoldable pub write_cached : Writer → CachedResponse → Writer
unfolding copy_headers
write_cached w cached =
    let w' = set_header (copy_headers w cached.headers) (codes "X-Cache") (codes "HIT") in
    write (write_header w' cached.status_code) (raw cached.body)

-- A response that is kept.
abbrev pub is_kept : ℕ → Bool
is_kept status = leb 200 status && ltb status 400

-- The writer that `next` gets, a `responseRecorder`, and what becomes of the outer one.
abbrev pub recorder : Writer → Writer
recorder w = record w { body = []; flusher = false; status_code = 200 }

abbrev pub behind : Writer → Writer → Writer
behind w rec = record rec {
  body = w.body ++ rec.body;
  flusher = w.flusher;
  status_code = w.status_code;
}

unfoldable pub recorded : (Chunk → Bytes) → Writer → CachedResponse
recorded encode rec = record {
  status_code = rec.status_code;
  body = flatten (map encode rec.body);
  headers = rec.headers;
}

abbrev pub cache_key : (Bytes → Bytes → Bytes) → Visit → Bytes
cache_key hash v = codes "httpcache:" ++ hash v.request.method v.url

module _ (matches : Bytes → Bytes → Bool) (m : Marshaller CachedResponse) (encode : Chunk → Bytes)
    (hash : Bytes → Bytes → Bytes) {st : Store} {n : Network} {fl : Float64} {A : Type 0} where
  -- After `next`: a response is stored unless it is an error. `later` is what the clock then reads.
  unfoldable pub keep_response :
      ℤ → ℕ → Visit → Writer → Outcome (App st n fl A) → Outcome (App st n fl A)
  unfolding recorded
  keep_response ttl later v w o =
      let (c, _, effects) =
        Ops.set matches m o.state.cache (cache_key hash v) (other (recorded encode o.writer)) ttl
          later in
      let w' = set_header (behind w o.writer) (codes "X-Cache") (codes "MISS") in
      if o.panicked
      then record o { writer = behind w o.writer }
      else if is_kept o.writer.status_code
      then record o {
        state = record (o.state) { cache = c };
        writer = w';
        effects = o.effects ++ effects;
      }
      else record o { writer = w' }

  unfoldable pub http_cache :
      ℤ → ℕ → ℕ → VisitHandler (App st n fl A) → VisitHandler (App st n fl A)
  unfolding write_cached keep_response
  http_cache ttl now later next s w v =
      let (c, found, effects) = Ops.get matches m s.cache (cache_key hash v) other_dest now in
      let s' = record s { cache = c } in
      let fresh = keep_response ttl later v w (next s' (recorder w) v) in
      let served = next s w v in
      ite (Bytes-discrete v.request.method (codes "GET"))
        (elim found [
          | none ↦ record fresh { effects = effects ++ fresh.effects }
          | some value ↦ elim value [
            | other cached ↦ answer s' (write_cached w cached) effects
            | bytes _ ↦ record fresh { effects = effects ++ fresh.effects }
          ]
        ])
        served
