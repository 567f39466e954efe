-- ===== src/Http/Streams.antt =====
-- What becomes of a request for a stream of events.
use cache_grid.Base.{Bytes, Bytes-discrete, List, [], ◌∷◌, ◌≡◌, refl, some, Bool, codes}
use cache_grid.Facade.Parts.{Store, Marshaller}
use cache_grid.Http.Events.{handle_subscribe}
use cache_grid.Http.Message.{
  Request, new_writer, text, object, set_header, write_header, write, write_json, write_error,
}
use cache_grid.Http.Middleware.{
  with_middleware, cors_middleware, cors_headers, logging_middleware, recovery_middleware,
}
use cache_grid.Http.Routes.{Around, route, read_route, dispatch, serve_mux, serve}
use cache_grid.Http.Server.{Server, Packages}
use cache_grid.Limit.Float.{Float64}
use cache_grid.Rpc.Client.{Network}

module _ (matches : Bytes → Bytes → Bool) {V : Type 0} (m : Marshaller V) (p : Packages)
    {st : Store} {n : Network} {fl : Float64} (around : Around st n fl) where
  -- A request for a stream, over a connection that could stream, is refused: the answer is 500, for
  -- every pattern, and no subscription is made.
  pub stream_refused :
      (s : Server st n fl) (first : Bytes) (rest : List Bytes) (headers : List (Bytes × Bytes))
      → let r : Request = record {
        method = codes "GET";
        path = codes "subscribe" ∷ first ∷ rest;
        headers = headers;
        body = some [];
      } in
        let o = serve matches m p around s new_writer r in
        (o.writer.status ≡ some 500)
        × (o.writer.body
            ≡ object ((codes "error", text (codes "streaming not supported")) ∷ []) ∷ [])
        × (o.state ≡ s)
  unfolding serve serve_mux dispatch route read_route handle_subscribe with_middleware
      cors_middleware cors_headers logging_middleware recovery_middleware write_error write_json
      write write_header set_header Bytes-discrete
  stream_refused s first rest headers = (refl, refl, refl)
