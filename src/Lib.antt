-- ===== src/Lib.antt =====
-- CacheGrid, a cache with locks and a cluster, written in Go.
--
-- Parts and files. A child module stands beside the file it belongs to.
-- - internal/cache (shard.go, entry.go, eviction.go): Shard/Entry, Shard/Lru, Shard/State and
--   Shard/Ops model one shard: the map of items, the LRU list, the size and its limit. `Get`,
--   `Set`, `Delete`, `Exists`, `TTL`, `Incr`, `DeleteExpired` and `Len` are get, set, delete,
--   exists, ttl, incr, delete_expired and len; removeLocked and evictLocked are remove_locked and
--   evict_locked. Shard/Spec is the abstract view: a list of cells in order of use. Shard/Order,
--   Shard/Consistent, Shard/Keeps, Shard/Evict, Shard/Methods and Shard/Valid carry the invariant,
--   Shard/Refine the refinement, Shard/Reads, Shard/Sweep, Shard/Counter and Shard/Sums the rest.
-- - store_memory.go: Store/Memory models `MemoryStore`, a list of shards and the mask that picks
--   one; Store/Fnv is the FNV-1a hash of Go's hash/fnv; Store/Routing and Store/Laws are about
--   both.
-- - internal/lock/lock.go: Lock/Engine models the lock table with its fencing counter and a tick of
--   the cleanup goroutine; Lock/Calls, Lock/Invariant, Lock/Fencing and Lock/Holder are about it.
-- - tags.go: Tags/Index models `tagIndex`; Tags/Linked, Tags/Lookup and Tags/Purge are about it.
-- - internal/cluster/hashring.go: Ring/State models `Ring`; Ring/Search is `sort.Search`,
--   Ring/Order the clockwise order; Ring/Owner, Ring/Rotation, Ring/Several, Ring/Add, Ring/Others
--   and Ring/Remove are about the operations.
-- - store_pebble.go: Pebble/State models `PebbleStore` over a database, Pebble/Db, and
--   Pebble/Format the bytes of an entry; Pebble/Laws is about them.
-- - internal/cluster/state.go and member.go: Nodes/State models `ClusterState` and Nodes/Lookup is
--   about it; Nodes/Member models the notices of memberlist that `Membership` gets, and Nodes/Agree
--   is about ring and table together.
-- - config.go, with the memory store of `New` in cache.go: Config/Options, and Config/Accepted.
-- - internal/pubsub: Pubsub/Broker models broker and subscriptions, and Pubsub/Delivery is about
--   what they deliver. `matches` is in Pubsub/Match, with the chunks of `path.Match` in
--   Pubsub/Glob; Pubsub/Literal is about patterns of plain text, Pubsub/Fuel and Pubsub/Total about
--   termination.
-- - internal/transport: Rpc/Message, Rpc/Server (`processRequest`) and Rpc/Client (the calls and
--   the pool of connections); Rpc/Laws is about a call and its handling together.
-- - cache.go, distributed.go and the cache's part of tags.go: Facade/Parts has the interface
--   `Store` of store.go, the serializer and the state of `Cache`; Facade/Routing the three modes,
--   Facade/Ops and Facade/Bulk the operations and Facade/Handler the calls of other nodes;
--   Facade/Locks is lock.go, and Facade/Retries is about its waiting; Facade/Namespace is
--   namespace.go, and Facade/Isolation is about it. Facade/Reads and Facade/Remote are about a key
--   that is served here or by another node; Facade/Backend makes the memory store a `Store`.
--   Facade/Lifecycle is `New`, `Shutdown` and the sweeper, Facade/Closed is about a cache that is
--   shut down, Facade/Invalidate about the tags after `InvalidateTag` and a sweep.
-- - internal/ratelimit: Limit/Bucket and Limit/Window model `TokenBucket` and `SlidingWindow` over
--   Limit/Float, and Facade/Limits is ratelimit.go; Limit/Calls, Limit/Burst, Limit/Steps and
--   Limit/Span are about series of calls.
-- - internal/server: Http/Message has requests and the writer of an answer, Http/Middleware is
--   middleware.go, Http/Text the headers of handler_cache.go, Http/Server the server, the structs
--   that it decodes and what it uses of packages; Http/Caches, Http/Locks, Http/Limits,
--   Http/Cluster and Http/Events are the handlers of the files of these names, and Http/Routes is
--   routes.go with the whole handler `serve`. Http/Layers, Http/RoundTrip, Http/Tokens, Http/Bursts
--   and Http/Streams are about them.
-- - middleware.go: Web/Visit has what it reads of a request, Web/Limited is `HTTPRateLimit` and
--   Web/Cached `HTTPCache`; Web/Hits is about a response that is stored.
-- - cmd/cachegrid/main.go: Command/Env is the configuration that it reads, and Command/Modes is
--   about it.
-- - pubsub.go: Facade/Hooks.
-- The cache calls its store, or the owner of a key by the ring through the transport; the other
-- node serves the call with its own cache. Evictions of the store become events and drop tags. Base
-- holds what they share; Tests holds runs of the definitions and the theorems at concrete inputs.
--
-- State and effects. A method is a function from the state to the new state and its result. A
-- callback that it fires is part of the result, since the code fires callbacks after it gave up its
-- lock. A method that reads the clock takes its readings as arguments, one for each `time.Now()`; a
-- theorem says which readings must be in order. Where the code gives up a lock in between (Exists
-- and TTL), the second section is a step of its own and gets the shard it finds. Concurrent calls
-- are sequences of such steps. Random tokens are arguments.
--
-- Values. Strings and byte slices are lists of bytes, a time is a number of nanoseconds, a duration
-- an integer; int64 counters and the fencing counter wrap around at 2 ^ 64, hashes at 2 ^ 32.
-- Sizes, times and durations are unbounded: they would have to exceed 2 ^ 63. The products of a TTL
-- in seconds and of MaxMemoryMB wrap around. A Go map is an association list without double keys,
-- whose order is that of a `range` over it; no theorem depends on that order. An index out of range
-- and a negative capacity are `none`.
--
-- Loops. `evict_loop` has the length of the LRU list as fuel, `search_fuel` one more than the
-- number of hashes, `decimal_fuel` one more than the number it prints: each round uses up one, and
-- the results on the first two say that this is enough. The loops of `path.Match` have the length
-- of the pattern or of the chunk as fuel, of which each round takes at least one byte.
--
-- Parameters: msgpack, which writes and reads an int64; the Pebble database; the network, that is
-- what a dial and an exchange on a connection bring; the arithmetic of float64, with laws of IEEE
-- 754; SHA-256; Go's time and JSON packages as the HTTP handlers use them. The broker takes the
-- test of a key against a pattern as an argument, which `matches` of Pubsub/Match is.
--
-- Not modelled: the gossip of memberlist, the sockets on which the servers listen, the signals on
-- which main stops, and the examples; goroutines other than as interleaved steps, or as requests
-- that are sent.
mod Base
pub mod Ring
pub mod Limit
pub mod Shard
pub mod Lock
pub mod Store
pub mod Tags
pub mod Pebble
pub mod Nodes
pub mod Config
pub mod Pubsub
pub mod Rpc
pub mod Facade
pub mod Http
pub mod Web
pub mod Command
mod Tests
