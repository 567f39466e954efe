-- ===== src/Http/Events.antt =====
-- handler_pubsub.go: events as a stream.
use cache_grid.Base.{Bytes, List, [], ◌∷◌, if◌then◌else◌, codes}
use cache_grid.Facade.Hooks.{subscribe_cache, close_cache_subscription}
use cache_grid.Facade.Parts.{Store}
use cache_grid.Http.Message.{
  Request, text, event, Writer, set_header, write_header, write, write_error, Outcome, answer,
}
use cache_grid.Http.Server.{Server}
use cache_grid.Limit.Float.{Float64}
use cache_grid.Pubsub.Broker.{Event, EventType, event_set, event_delete, event_expire, event_evict}
use cache_grid.Rpc.Client.{Network}

unfoldable pub event_name : EventType → Bytes
event_name event_set = codes "set"
event_name event_delete = codes "delete"
event_name event_expire = codes "expire"
event_name event_evict = codes "evict"

-- The loop, on the events that it receives until the request or the channel ends.
unfoldable pub write_events : Writer → List Event → Writer
unfolding event_name
write_events w [] = w
write_events w (e ∷ events) =
    write_events
      (write w (event ((codes "type", text (event_name e.type)) ∷ (codes "key", text e.key) ∷ [])))
      events

unfoldable pub stream_headers : Writer → Writer
stream_headers w =
    let w₁ = set_header w (codes "Content-Type") (codes "text/event-stream") in
    let w₂ = set_header w₁ (codes "Cache-Control") (codes "no-cache") in
    set_header w₂ (codes "Connection") (codes "keep-alive")

module _ {st : Store} {n : Network} {fl : Float64} where
  -- `meanwhile` is what becomes of the server during the stream.
  unfoldable pub handle_subscribe :
      Bytes
      → List Event
      → (Server st n fl → Server st n fl)
      → Server st n fl
      → Writer
      → Request
      → Outcome (Server st n fl)
  unfolding write_events stream_headers
  handle_subscribe pattern events meanwhile s w r =
      let all : Bytes = elim pattern [ [] ↦ b'*' ∷ [] | c ∷ rest ↦ c ∷ rest ] in
      let (c, sub) = subscribe_cache s.cache all in
      let s' = meanwhile (record s { cache = c }) in
      let ended = close_cache_subscription s'.cache sub in
      if w.flusher
      then answer (record s' { cache = ended })
          (write_events (write_header (stream_headers w) 200) events) []
      else answer s (write_error w 500 (codes "streaming not supported")) []
