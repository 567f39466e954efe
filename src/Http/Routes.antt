-- ===== src/Http/Routes.antt =====
-- routes.go, with what `http.ServeMux` does with its patterns: the method, then the segments of the
-- path, of which a single one that a name stands for is not empty; HEAD is served where GET is,
-- unless it has a pattern of its own.
use cache_grid.Base.{
  ℕ, Bytes, Bytes-discrete, List, [], ◌∷◌, ◌++◌, Bool, true, false, ◌||◌, ite, if◌then◌else◌, codes,
}
use cache_grid.Facade.Parts.{Store, Marshaller, Cache}
use cache_grid.Http.Caches.{handle_get, handle_set, handle_delete, handle_exists, handle_mget}
use cache_grid.Http.Cluster.{handle_cluster_nodes, handle_health, handle_metrics}
use cache_grid.Http.Events.{handle_subscribe}
use cache_grid.Http.Limits.{handle_rate_limit}
use cache_grid.Http.Locks.{handle_acquire, handle_release, handle_extend}
use cache_grid.Http.Message.{raw, Writer, set_header, write_header, write, Handler, answer}
use cache_grid.Http.Middleware.{with_middleware}
use cache_grid.Http.Server.{Server, Packages}
use cache_grid.Limit.Float.{Float64}
use cache_grid.Pubsub.Broker.{Event}
use cache_grid.Rpc.Client.{Network}

pub data Route : Type 0 where
  cache_get : Bytes → Route
  cache_set : Bytes → Route
  cache_delete : Bytes → Route
  cache_exists : Bytes → Route
  cache_mget : Route
  lock_acquire : Bytes → Route
  lock_release : Bytes → Route
  lock_extend : Bytes → Route
  rate_limited : Bytes → Route
  subscribed : Bytes → Route
  cluster_nodes : Route
  health : Route
  metrics : Route
  moved : Route
  not_found : Route
  not_allowed : Bytes → Route

abbrev is_method : Bytes → Bytes → Bool
is_method a b = ite (Bytes-discrete a b) true false

abbrev is_read : Bytes → Bool
is_read method = is_method method (codes "GET") || is_method method (codes "HEAD")

unfoldable pub cache_route : Bytes → Bytes → Route
cache_route method key =
    if is_method method (codes "GET")
    then cache_get key
    else if is_method method (codes "HEAD")
    then cache_exists key
    else if is_method method (codes "PUT")
    then cache_set key
    else if is_method method (codes "DELETE")
    then cache_delete key
    else if is_method key (codes "_mget")
    then (if is_method method (codes "POST")
        then cache_mget
        else not_allowed (codes "DELETE, GET, HEAD, POST, PUT"))
    else not_allowed (codes "DELETE, GET, HEAD, PUT")

unfoldable pub lock_route : Bytes → Bytes → Route
lock_route method key =
    if is_method method (codes "POST")
    then lock_acquire key
    else if is_method method (codes "DELETE")
    then lock_release key
    else if is_method method (codes "PUT")
    then lock_extend key
    else not_allowed (codes "DELETE, POST, PUT")

unfoldable pub read_route : Bytes → Route → Route
read_route method route = if is_read method then route else not_allowed (codes "GET, HEAD")

-- The rest of a path.
unfoldable pub join_segments : List Bytes → Bytes
join_segments [] = []
join_segments (s ∷ []) = s
join_segments (s ∷ t ∷ rest) = s ++ b'/' ∷ join_segments (t ∷ rest)

-- A path of two segments, of which the second is not empty.
unfoldable pub pair_route : Bytes → Bytes → Bytes → Route
unfolding cache_route lock_route read_route
pair_route method first key =
    if is_method first (codes "cache")
    then cache_route method key
    else if is_method first (codes "locks")
    then lock_route method key
    else if is_method first (codes "ratelimit")
    then (if is_method method (codes "POST") then rate_limited key else not_allowed (codes "POST"))
    else if is_method first (codes "cluster")
    then (if is_method key (codes "nodes") then read_route method cluster_nodes else not_found)
    else not_found

unfoldable pub single_route : Bytes → Bytes → Route
unfolding read_route
single_route method first =
    if is_method first (codes "health")
    then read_route method health
    else if is_method first (codes "metrics")
    then read_route method metrics
    else if is_method first (codes "subscribe")
    then read_route method moved
    else not_found

unfoldable pub route : Bytes → List Bytes → Route
unfolding pair_route single_route join_segments
route method [] = not_found
route method (first ∷ []) = single_route method first
route method (first ∷ second ∷ rest) =
    if is_method first (codes "subscribe")
    then read_route method (subscribed (join_segments (second ∷ rest)))
    else elim rest [
      | _ ∷ _ ↦ not_found
      | [] ↦ elim second [ [] ↦ not_found | c ∷ key ↦ pair_route method first (c ∷ key) ]
    ]

-- `http.Error`.
unfoldable pub plain_error : Writer → ℕ → Bytes → Writer
plain_error w status msg =
    let w₁ = set_header w (codes "Content-Type") (codes "text/plain; charset=utf-8") in
    let w₂ = set_header w₁ (codes "X-Content-Type-Options") (codes "nosniff") in
    write (write_header w₂ status) (raw (msg ++ 10 ∷ []))

-- What happens around a request: its readings of the clock, the tokens it draws, what others do to
-- the cache between two attempts at a lock, and, during a stream, to the server, and the events
-- of the stream.
pub record Around (st : Store) (n : Network) (fl : Float64) : Type 0 where
  pub clock : ℕ → ℕ
  pub tokens : ℕ → Bytes
  pub between : ℕ → Cache st n → Cache st n
  pub meanwhile : Server st n fl → Server st n fl
  pub events : List Event

module _ (matches : Bytes → Bytes → Bool) {V : Type 0} (m : Marshaller V) (p : Packages)
    {st : Store} {n : Network} {fl : Float64} (around : Around st n fl) where
  unfoldable pub dispatch : Route → Handler (Server st n fl)
  unfolding plain_error
  dispatch (cache_get key) s w r = handle_get matches m p key around.clock s w r
  dispatch (cache_set key) s w r = handle_set matches m p key around.clock s w r
  dispatch (cache_delete key) s w r = handle_delete matches m p key around.clock s w r
  dispatch (cache_exists key) s w r = handle_exists matches m p key around.clock s w r
  dispatch cache_mget s w r = handle_mget matches m p around.clock s w r
  dispatch (lock_acquire key) s w r =
      handle_acquire p key around.tokens around.clock around.between s w r
  dispatch (lock_release key) s w r = handle_release p key s w r
  dispatch (lock_extend key) s w r = handle_extend p key around.clock s w r
  dispatch (rate_limited key) s w r = handle_rate_limit p key around.clock s w r
  dispatch (subscribed pattern) s w r =
      handle_subscribe pattern around.events around.meanwhile s w r
  dispatch cluster_nodes s w r = handle_cluster_nodes matches m p s w r
  dispatch health s w r = handle_health matches m p around.clock s w r
  dispatch metrics s w r = handle_metrics matches m p around.clock s w r
  dispatch moved s w r =
      answer s (write_header (set_header w (codes "Location") (codes "/subscribe/")) 301) []
  dispatch not_found s w r = answer s (plain_error w 404 (codes "404 page not found")) []
  dispatch (not_allowed allow) s w r =
      answer s (plain_error (set_header w (codes "Allow") allow) 405 (codes "Method Not Allowed"))
        []

  unfoldable pub serve_mux : Handler (Server st n fl)
  unfolding dispatch route
  serve_mux s w r = dispatch (route r.method r.path) s w r

  -- The handler of the HTTP server.
  unfoldable pub serve : Handler (Server st n fl)
  unfolding serve_mux
  serve = with_middleware serve_mux
