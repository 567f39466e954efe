-- ===== src/Tests/Servers.antt =====
-- Requests over HTTP.
use cache_grid.Base.{
  ℕ, ◌*◌, ◌^◌, ◌≡◌, ◌≢◌, refl, Bytes-discrete, [], ◌∷◌, none, some, true, lookup, take, codes,
  arith,
}
use cache_grid.Base.Int.{pos, wrap}
use cache_grid.Facade.Backend.{memory, Admits, memory-ReadsBack}
use cache_grid.Facade.Limits.{new_limiters}
use cache_grid.Facade.Ops.{is_zero}
use cache_grid.Facade.Reads.{effective_ttl}
use cache_grid.Facade.Routing.{owner_addr}
use cache_grid.Http.Bursts.{AsksFor, count_status, limit_all, handle_rate_limit_burst}
use cache_grid.Http.Locks.{handle_acquire, handle_release}
use cache_grid.Http.Message.{Request, new_writer, header, text, number, flag, raw, object, Handler}
use cache_grid.Http.RoundTrip.{request, put-get}
use cache_grid.Http.Routes.{Around, serve}
use cache_grid.Http.Server.{Server, Packages, decimal, read_json}
use cache_grid.Http.Streams.{stream_refused}
use cache_grid.Http.Text.{parse_ttl, atoi, scan_number, scan_digits, signed, in_seconds}
use cache_grid.Http.Tokens.{fencing_token_useless}
use cache_grid.Limit.Bucket.{new_token_bucket}
use cache_grid.Lock.Engine.{is_held, new_engine}
use cache_grid.Ring.State.{decimal_fuel}
use cache_grid.Tests.Counters.{digits}
use cache_grid.Tests.Data.{key_a, value_2}
use cache_grid.Tests.Facades.{numbers, no_match, nobody, alone, store_Admits}
use cache_grid.Tests.Limits.{whole, whole-IsExact}
use cache_grid.Tests.Locks.{token_1}

-- No text is a duration, and every body asks for what is written here.
abbrev pub packages : Packages
packages = record {
  parse_duration = λ s. none;
  duration_string = λ d. [];
  format_time = λ t. [];
  unix = pos;
  whole_seconds = λ d. [];
  decode_keys = λ body. some (key_a ∷ []);
  decode_acquire = λ body. some (record { ttl = []; retry_count = pos 0; retry_delay = [] });
  decode_extend = λ body. some [];
  decode_limit = λ body. some (record { limit = pos 3; window = []; algorithm = [] });
  error_text = λ e. [];
  goroutines = λ t. 1;
  alloc = λ t. 0;
  sys = λ t. 0;
}

abbrev pub server : Server (memory digits) nobody whole
server = record { cache = alone; limiters = new_limiters whole; start_time = 0 }

abbrev pub around : ℕ → Around (memory digits) nobody whole
around now = record {
  clock = λ i. now;
  tokens = λ i. token_1;
  between = λ i c. c;
  meanwhile = λ s. s;
  events = [];
}

stream_refused_example :
    let r : Request = record {
      method = codes "GET";
      path = codes "subscribe" ∷ codes "user:*" ∷ [];
      headers = [];
      body = some [];
    } in
    let o = serve no_match numbers packages (around 12) server new_writer r in
    (o.writer.status ≡ some 500)
    × (o.writer.body ≡ object ((codes "error", text (codes "streaming not supported")) ∷ []) ∷ [])
    × (o.state ≡ server)
stream_refused_example =
    stream_refused no_match numbers packages (around 12) server (codes "user:*") [] []

put-get_example :
    let r = request (codes "PUT") b'a' [] ((codes "X-Ttl", codes "7") ∷ []) value_2 in
    let o = serve no_match numbers packages (around 12) server new_writer r in
    let o' =
      serve no_match numbers packages
        (around 19)
        o.state
        new_writer
        (request (codes "GET") b'a' [] [] []) in
    (o.writer.status ≡ some 204)
    × (o'.writer.status ≡ some 200)
    × (o'.writer.body ≡ raw (take (10 * 2 ^ 20) value_2) ∷ [])
unfolding owner_addr effective_ttl is_zero take header lookup Bytes-discrete parse_ttl atoi
    scan_number scan_digits signed in_seconds wrap
put-get_example =
    put-get no_match numbers packages (memory digits) Admits (around 12) (around 19) server b'a' []
      value_2 ((codes "X-Ttl", codes "7") ∷ []) [] refl (memory-ReadsBack digits) refl refl
      store_Admits (λ h. omega arith)

token_differs : token_1 ≢ decimal 1
unfolding decimal decimal_fuel
token_differs e = cc

fencing_token_useless_example :
    let o =
      handle_acquire packages key_a
        (λ i. token_1)
        (λ i. 12)
        (λ i c. c)
        server
        new_writer
        (record { method = codes "POST"; path = []; headers = []; body = some [] }) in
    let o' = handle_release packages key_a o.state new_writer (record {
      method = codes "DELETE";
      path = [];
      headers = (codes "X-Lock-Token", decimal 1) ∷ [];
      body = none;
    }) in
    (o.writer.status ≡ some 200)
    × (o.writer.body
        ≡ object (
            (codes "acquired", flag true)
            ∷ (codes "token", number (pos 1))
            ∷ (codes "fencing_token", number (pos 1))
            ∷ [])
          ∷ [])
    × (o'.writer.status ≡ some 409)
    × (o'.state ≡ o.state)
unfolding owner_addr decimal decimal_fuel is_held lookup new_engine
fencing_token_useless_example =
    fencing_token_useless packages server b'a' [] []
      (record { ttl = []; retry_count = pos 0; retry_delay = [] }) 0 (λ i. token_1) (λ i. 12)
      (λ i c. c) [] refl refl refl refl refl token_differs

-- A handler that always panics.
abbrev broken : Handler ℕ
broken s w r = record { state = s; writer = w; panicked = true; effects = []; logs = [] }

abbrev limit_request : Request
limit_request = record { method = codes "POST"; path = []; headers = []; body = some [] }

limit_request-AsksFor : AsksFor packages limit_request 2
unfolding read_json
limit_request-AsksFor = record {
  asked = record { limit = pos 3; window = []; algorithm = [] };
  decoded = refl;
  limited = refl;
  bucket = λ e. cc;
}

handle_rate_limit_burst_example :
    let statuses = limit_all packages 5 key_a 7 limit_request server in
    (count_status 200 statuses ≡ 3) × (count_status 429 statuses ≡ 2)
unfolding new_limiters new_token_bucket lookup
handle_rate_limit_burst_example =
    handle_rate_limit_burst packages whole-IsExact 5 b'a' [] 7 2 limit_request server
      limit_request-AsksFor refl (omega arith)
