-- ===== src/Http/RoundTrip.antt =====
-- What a PUT stores and a GET answers with.
use cache_grid.Base.{
  ℕ, ◌≡◌, ◌≢◌, refl, ◌∙◌, Bytes, Bytes-discrete, List, [], ◌∷◌, none, some, Bool, false, take,
  codes, arith,
}
use cache_grid.Facade.Ops
use cache_grid.Facade.Ops.{is_empty}
use cache_grid.Facade.Parts.{Store, Marshaller, bytes, bytes_dest, serialize, deserialize}
use cache_grid.Facade.Reads.{get-set_here, ReadsBack, effective_ttl}
use cache_grid.Facade.Routing.{owner_addr}
use cache_grid.Http.Caches.{
  body_limit, read_all, raw_value, write_value, store_body, handle_get, handle_set,
}
use cache_grid.Http.Message.{
  Request, Writer, new_writer, header, raw, set_header, write_header, write,
}
use cache_grid.Http.Layers.{inner_writer, with_middleware_calm}
use cache_grid.Http.Middleware.{cors_headers}
use cache_grid.Http.Routes.{Around, route, pair_route, cache_route, dispatch, serve_mux, serve}
use cache_grid.Http.Server.{Server, Packages}
use cache_grid.Http.Text.{parse_ttl, parse_tags}
use cache_grid.Limit.Float.{Float64}
use cache_grid.Shard.Reads.{InTime}
use cache_grid.Rpc.Client.{Network}

-- A request about a key.
abbrev pub request : Bytes → ℕ → Bytes → List (Bytes × Bytes) → Bytes → Request
request method k key headers body = record {
  method = method;
  path = codes "cache" ∷ (k ∷ key) ∷ [];
  headers = headers;
  body = some body;
}

pub get_asked : codes "GET" ≢ codes "OPTIONS"
get_asked e = cc

put_asked : codes "PUT" ≢ codes "OPTIONS"
put_asked e = cc

module _ (matches : Bytes → Bytes → Bool) {V : Type 0} (m : Marshaller V) (p : Packages)
    {st : Store} {n : Network} {fl : Float64} where
  -- The answer to a hit.
  get_answer :
      (s : Server st n fl) (k : ℕ) (key value : Bytes) (clock : ℕ → ℕ) (w : Writer) (r : Request)
      → (Ops.get matches m s.cache (k ∷ key) bytes_dest (clock 0)).1 ≡ some (bytes value)
      → w.status ≡ none
      → w.body ≡ []
      → let o = handle_get matches m p (k ∷ key) clock s w r in
        (o.writer.status ≡ some 200) × (o.writer.body ≡ raw value ∷ []) × (o.panicked ≡ false)
  unfolding handle_get raw_value write_value write write_header set_header
  get_answer s k key value clock w r found fresh empty = ground (arith, found, fresh, empty)

  set_answer :
      (s : Server st n fl) (k : ℕ) (key body : Bytes) (clock : ℕ → ℕ) (w : Writer) (r : Request)
      → r.body ≡ some body
      → header r (codes "X-Tags") ≡ []
      → w.status ≡ none
      → let ttl = parse_ttl p.parse_duration (header r (codes "X-Ttl")) in
        let result =
          Ops.set matches m s.cache (k ∷ key) (bytes (take body_limit body)) ttl (clock 0) in
        result.1 ≡ none
        → let o = handle_set matches m p (k ∷ key) clock s w r in
          (o.writer.status ≡ some 204)
          × (o.state ≡ record s { cache = result.0 })
          × (o.panicked ≡ false)
  unfolding handle_set store_body read_all parse_tags write_header
  set_answer s k key body clock w r there untagged fresh ok =
      ground (arith, there, untagged, fresh, ok)

  module _ (around : Around st n fl) where
    serve_get :
        (s : Server st n fl) (k : ℕ) (key value : Bytes) (headers : List (Bytes × Bytes))
        → (Ops.get matches m s.cache (k ∷ key) bytes_dest (around.clock 0)).1 ≡ some (bytes value)
        → let o = serve matches m p around s new_writer (request (codes "GET") k key headers []) in
          (o.writer.status ≡ some 200) × (o.writer.body ≡ raw value ∷ [])
    unfolding serve serve_mux dispatch route pair_route cache_route Bytes-discrete cors_headers
        set_header
    serve_get s k key value headers found =
        let r = request (codes "GET") k key headers [] in
        let (status, body, calm) =
          get_answer s k key value around.clock inner_writer r found refl refl in
        let (_, status', body', _, _, _) =
          with_middleware_calm (serve_mux matches m p around) s r get_asked calm in
        (status' ∙ status, body' ∙ body)

    serve_put :
        (s : Server st n fl) (k : ℕ) (key body : Bytes) (headers : List (Bytes × Bytes))
        → let r = request (codes "PUT") k key headers body in
          let ttl = parse_ttl p.parse_duration (header r (codes "X-Ttl")) in
          let result =
            Ops.set matches m s.cache
              (k ∷ key)
              (bytes (take body_limit body))
              ttl
              (around.clock 0) in
          header r (codes "X-Tags") ≡ []
          → result.1 ≡ none
          → let o = serve matches m p around s new_writer r in
            (o.writer.status ≡ some 204) × (o.state ≡ record s { cache = result.0 })
    unfolding serve serve_mux dispatch route pair_route cache_route Bytes-discrete cors_headers
        set_header
    serve_put s k key body headers untagged ok =
        let r = request (codes "PUT") k key headers body in
        let (status, state, calm) =
          set_answer s k key body around.clock inner_writer r refl untagged refl ok in
        let (state', status', _, _, _, _) =
          with_middleware_calm (serve_mux matches m p around) s r put_asked calm in
        (status' ∙ status, state' ∙ state)

-- Over HTTP, on an open cache and for a key that is served on this node: a PUT without tags is
-- answered by 204, and a GET of the key then by 200 with the body that was put, until its lifetime
-- has passed, over a store that reads back what it admits. Of a body of more than 10 MB it is the
-- first 10 MB that are stored and answered, and the PUT succeeds all the same.
pub put-get :
    (matches : Bytes → Bytes → Bool) {V : Type 0} (m : Marshaller V) (p : Packages) (st : Store)
    {n : Network} {fl : Float64} (Admits : st.S → Bytes → Bytes → Type 0)
    (before after : Around st n fl) (s : Server st n fl) (k : ℕ) (key body : Bytes)
    (headers others : List (Bytes × Bytes))
    → let r = request (codes "PUT") k key headers body in
      let ttl = parse_ttl p.parse_duration (header r (codes "X-Ttl")) in
      header r (codes "X-Tags") ≡ []
      → ReadsBack st Admits
      → owner_addr s.cache.cluster (k ∷ key) ≡ []
      → s.cache.closed ≡ false
      → Admits s.cache.store (k ∷ key) (take body_limit body)
      → InTime (effective_ttl s.cache.config.default_ttl ttl) (before.clock 0) (after.clock 0)
      → let o = serve matches m p before s new_writer r in
        let o' =
          serve matches m p after o.state new_writer (request (codes "GET") k key others []) in
        (o.writer.status ≡ some 204)
        × (o'.writer.status ≡ some 200)
        × (o'.writer.body ≡ raw (take body_limit body) ∷ [])
unfolding is_empty serialize deserialize
put-get matches m p st Admits before after s k key body headers others untagged law here open_cache
      admits time =
    let r = request (codes "PUT") k key headers body in
    let ttl = parse_ttl p.parse_duration (header r (codes "X-Ttl")) in
    let stored = take body_limit body in
    let (ok, read) =
      get-set_here matches m st Admits s.cache (k ∷ key) stored (bytes stored) bytes_dest ttl
        (before.clock 0) (after.clock 0) law here refl open_cache refl admits time in
    let (status, state) = serve_put matches m p before s k key body headers untagged ok in
    let result = Ops.set matches m s.cache (k ∷ key) (bytes stored) ttl (before.clock 0) in
    let (status', body') =
      serve_get matches m p after (record s { cache = result.0 }) k key stored others read in
    (status, (rw state status'), (rw state body'))
