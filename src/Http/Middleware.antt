-- ===== src/Http/Middleware.antt =====
-- internal/server/middleware.go. A handler that panics leaves the state and the writer as they were
-- then.
use cache_grid.Base.{false, Bytes-discrete, [], ◌∷◌, ◌++◌, ite, if◌then◌else◌, codes}
use cache_grid.Http.Message.{
  Writer, set_header, write_header, write_error, served, recovered, Handler, answer,
}

-- What every answer carries.
unfoldable pub cors_headers : Writer → Writer
cors_headers w =
    let w₁ = set_header w (codes "Access-Control-Allow-Origin") (codes "*") in
    let w₂ =
      set_header w₁ (codes "Access-Control-Allow-Methods")
        (codes "GET, POST, PUT, DELETE, HEAD, OPTIONS") in
    set_header w₂ (codes "Access-Control-Allow-Headers") (codes "Content-Type, Authorization")

module _ {S : Type 0} where
  -- The handler gets a `statusWriter`, which has the methods of `http.ResponseWriter` alone: it
  -- cannot flush. A panic passes the line that logs.
  unfoldable pub logging_middleware : Handler S → Handler S
  logging_middleware next s w r =
      let o = next s (record w { flusher = false; status_code = 200 }) r in
      let w' : Writer = record (o.writer) { flusher = w.flusher; status_code = w.status_code } in
      if o.panicked then record o { writer = w' } else record o {
        writer = w';
        logs = o.logs ++ served r.method r.path o.writer.status_code ∷ [];
      }

  unfoldable pub recovery_middleware : Handler S → Handler S
  recovery_middleware next s w r =
      let o = next s w r in
      if o.panicked
      then record o {
        writer = write_error o.writer 500 (codes "internal server error");
        panicked = false;
        logs = o.logs ++ recovered ∷ [];
      }
      else o

  unfoldable pub cors_middleware : Handler S → Handler S
  unfolding cors_headers
  cors_middleware next s w r =
      let w' = cors_headers w in
      let rest = next s w' r in
      ite (Bytes-discrete r.method (codes "OPTIONS")) (answer s (write_header w' 204) []) rest

  unfoldable pub with_middleware : Handler S → Handler S
  unfolding logging_middleware recovery_middleware cors_middleware
  with_middleware next = recovery_middleware (cors_middleware (logging_middleware next))
