-- ===== src/Tests/Webs.antt =====
-- A page that is cached, and the address of a client.
use cache_grid.Base.{ℕ, ◌≡◌, refl, Bytes, [], ◌∷◌, none, some, false, lookup, codes}
use cache_grid.Config.Options.{default_config}
use cache_grid.Facade.Backend.{memory, or_miss}
use cache_grid.Facade.Limits.{new_limiters}
use cache_grid.Facade.Ops
use cache_grid.Facade.Ops.{is_empty}
use cache_grid.Facade.Parts.{Marshaller, other_dest}
use cache_grid.Facade.Routing.{owner_addr, distributed_get, store_get}
use cache_grid.Http.Message.{header, Chunk, raw, object, event, nodes, write}
use cache_grid.Tests.Counters.{digits}
use cache_grid.Tests.Data.{value_2}
use cache_grid.Tests.Facades.{nobody, alone, no_match}
use cache_grid.Tests.Limits.{whole}
use cache_grid.Tests.Stores.{store_code}
use cache_grid.Web.Cached.{CachedResponse, cache_key}
use cache_grid.Web.Visit.{Visit, App, VisitHandler, client_ip, before}

-- Responses without headers.
abbrev pages : Marshaller CachedResponse
pages = record {
  marshal = λ r. some (r.status_code ∷ r.body);
  unmarshal = λ b. elim b [
    | [] ↦ none
    | c ∷ body ↦ some (record { status_code = c; body = body; headers = [] })
  ];
}

abbrev bytes_of : Chunk → Bytes
bytes_of (raw b) = b
bytes_of (object _) = []
bytes_of (event _) = []
bytes_of (nodes _ _) = []

-- It counts its calls.
abbrev page : VisitHandler (App (memory digits) nobody whole ℕ)
page s w v = record {
  state = record s { own = 8 };
  writer = write w (raw value_2);
  panicked = false;
  effects = [];
  logs = [];
}

abbrev app : App (memory digits) nobody whole ℕ
app = record { cache = alone; limiters = new_limiters whole; own = 7 }

abbrev visit : Visit
visit = record {
  request = record { method = codes "GET"; path = []; headers = []; body = none };
  url = codes "/";
  remote_addr = codes "[2001:db8::1]:4321";
}

-- Another client, with a header of its own.
abbrev other_visit : Visit
other_visit = record {
  request = record {
    method = codes "GET";
    path = [];
    headers = (codes "Accept", codes "text/html") ∷ [];
    body = none;
  };
  url = codes "/";
  remote_addr = codes "10.0.0.2:80";
}

-- All clients with the first group of this address count as one.
client_run : client_ip visit ≡ codes "[2001"
unfolding client_ip before header lookup
client_run = refl

absent : (Ops.get no_match pages alone (cache_key (λ a b. b) visit) other_dest 12).1 ≡ none
unfolding store_code Ops.get is_empty distributed_get owner_addr store_get or_miss default_config
absent = refl

-- The handler finds the cache as it was.
unchanged : (Ops.get no_match pages alone (cache_key (λ a b. b) visit) other_dest 12).0 ≡ alone
unfolding store_code Ops.get is_empty distributed_get owner_addr store_get or_miss default_config
unchanged = refl
