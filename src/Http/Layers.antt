-- ===== src/Http/Layers.antt =====
-- What the middleware makes of the answer of a handler.
use cache_grid.Base.{[], ◌∷◌, ◌++◌, ◌≡◌, ◌≢◌, none, some, true, false, codes, arith}
use cache_grid.Http.Message.{
  Request, Writer, new_writer, text, object, recovered, Handler, set_header, write_header, write,
  write_json, write_error,
}
use cache_grid.Http.Middleware.{
  with_middleware, cors_headers, cors_middleware, logging_middleware, recovery_middleware,
}

-- The writer that the handler gets.
abbrev pub inner_writer : Writer
inner_writer = record (cors_headers new_writer) { flusher = false; status_code = 200 }

module _ {S : Type 0} (next : Handler S) (s : S) (r : Request)
    (asked : r.method ≢ codes "OPTIONS") where
  pub with_middleware_calm :
      (next s inner_writer r).panicked ≡ false
      → let o = next s inner_writer r in
        let o' = with_middleware next s new_writer r in
        (o'.state ≡ o.state)
        × (o'.writer.status ≡ o.writer.status)
        × (o'.writer.body ≡ o.writer.body)
        × (o'.writer.headers ≡ o.writer.headers)
        × (o'.effects ≡ o.effects)
        × (o'.panicked ≡ false)
  unfolding with_middleware cors_middleware logging_middleware recovery_middleware cors_headers
      set_header
  with_middleware_calm calm = ground (arith, calm)

  -- To a request that is not OPTIONS, where the handler panics and has sent neither a status nor a
  -- body: the layers around it answer 500 with an error object, keep the state that the handler left,
  -- log the panic after what it logged, and do not panic.
  pub with_middleware_panic :
      (next s inner_writer r).panicked ≡ true
      → (next s inner_writer r).writer.status ≡ none
      → (next s inner_writer r).writer.body ≡ []
      → let o' = with_middleware next s new_writer r in
        (o'.state ≡ (next s inner_writer r).state)
        × (o'.panicked ≡ false)
        × (o'.writer.status ≡ some 500)
        × (o'.writer.body
            ≡ object ((codes "error", text (codes "internal server error")) ∷ []) ∷ [])
        × (o'.logs ≡ (next s inner_writer r).logs ++ recovered ∷ [])
  unfolding with_middleware cors_middleware logging_middleware recovery_middleware cors_headers
      set_header write_error write_json write_header write
  with_middleware_panic panics fresh empty = ground (arith, panics, fresh, empty)
