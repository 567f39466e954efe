-- ===== src/Http/Tokens.antt =====
-- What the token of a lock over HTTP is good for.
use cache_grid.Base.{
  ℕ, zero, suc, ◌+◌, ◌/◌, ◌%◌, ◌^◌, ◌≡◌, ◌≢◌, refl, ◌∙◌, Bytes, Bytes-discrete, List, [], ◌∷◌,
  Option, none, some, true, false, lookup, codes, arith,
}
use mathlib.Core.List.{cons-ne-nil}
use cache_grid.Base.GoMap.{lookup-insert_self}
use cache_grid.Base.Int.{ℤ, pos}
use cache_grid.Facade.Locks.{lock, lock_loop, lock_key, Locked, locked, attempt, attempts}
use cache_grid.Facade.Ops.{is_empty}
use cache_grid.Facade.Parts.{Store, Cache}
use cache_grid.Facade.Retries.{granted}
use cache_grid.Facade.Routing.{owner_addr, self_owner}
use cache_grid.Http.Locks.{
  default_lock_ttl, handle_acquire, handle_release, write_handle, write_done,
}
use cache_grid.Http.Message.{
  Request, new_writer, header, number, flag, object, set_header, write_header, write, write_json,
}
use cache_grid.Http.Server.{Server, Packages, AcquireRequest, decimal, duration_or, read_json}
use cache_grid.Limit.Float.{Float64}
use cache_grid.Lock.Engine
use cache_grid.Lock.Engine.{is_held}
use cache_grid.Ring.State.{decimal_fuel}
use cache_grid.Rpc.Client.{Network}

-- The cache after an attempt at a free lock of this node.
abbrev pub holding : {st : Store} {n : Network} → Cache st n → Bytes → ℤ → Bytes → ℕ → Cache st n
holding c key ttl token now = record c {
  lock_engine = (Engine.acquire c.lock_engine key ttl (self_owner c) token now now).0;
}

module _ {st : Store} {n : Network} where
  attempt_free :
      (c : Cache st n) (key token : Bytes) (ttl : ℤ) (now : ℕ)
      → owner_addr c.cluster key ≡ []
      → is_held c.lock_engine key now ≡ false
      → attempt c key ttl token now
        ≡ (holding c key ttl token now, some (locked (granted c key token)))
  unfolding attempt Engine.acquire
  attempt_free c key token ttl now here free = ground arith

  lock_loop_free :
      (c c' : Cache st n) (key : Bytes) (result : Locked) (tokens : ℕ → Bytes) (clock : ℕ → ℕ)
      (between : ℕ → Cache st n → Cache st n) (ttl : ℤ) (left : ℕ)
      → attempt c key ttl (tokens 0) (clock 0) ≡ (c', some result)
      → lock_loop tokens clock between key ttl (suc left) c ≡ (c', result)
  unfolding lock_loop
  lock_loop_free c c' key result tokens clock between ttl left first = cc

  lock_open :
      (c : Cache st n) (key : Bytes) (tokens : ℕ → Bytes) (clock : ℕ → ℕ)
      (between : ℕ → Cache st n → Cache st n) (ttl : ℤ) (retries : ℕ)
      → is_empty key ≡ false
      → c.closed ≡ false
      → lock tokens clock between c key ttl (pos retries)
        ≡ lock_loop tokens clock between (lock_key key) ttl (suc retries) c
  unfolding lock attempts
  lock_open c key tokens clock between ttl retries named open_cache = ground arith

  lock_free :
      (c : Cache st n) (key : Bytes) (tokens : ℕ → Bytes) (clock : ℕ → ℕ)
      (between : ℕ → Cache st n → Cache st n) (ttl : ℤ) (retries : ℕ)
      → is_empty key ≡ false
      → c.closed ≡ false
      → owner_addr c.cluster (lock_key key) ≡ []
      → is_held c.lock_engine (lock_key key) (clock 0) ≡ false
      → lock tokens clock between c key ttl (pos retries) ≡ (
        holding c (lock_key key) ttl (tokens 0) (clock 0),
        locked (granted c (lock_key key) (tokens 0)),
      )
  lock_free c key tokens clock between ttl retries named open_cache here free =
      lock_open c key tokens clock between ttl retries named open_cache
      ∙ lock_loop_free c (holding c (lock_key key) ttl (tokens 0) (clock 0)) (lock_key key)
          (locked (granted c (lock_key key) (tokens 0))) tokens clock between ttl retries
          (attempt_free c (lock_key key) (tokens 0) ttl (clock 0) here free)

acquired_lookup :
    (e : Engine.Engine) (key token owner : Bytes) (ttl : ℤ) (now : ℕ)
    → is_held e key now ≡ false
    → (entry : Engine.Entry) × (Engine.find (Engine.acquire e key ttl owner token now now).0 key
        ≡ some entry)
      × (entry.token ≡ token)
unfolding Engine.acquire
acquired_lookup e key token owner ttl now free =
    rw free (_, lookup-insert_self Bytes-discrete key _ e.locks, refl)

release_other :
    (e : Engine.Engine) (key token other : Bytes) (entry : Engine.Entry)
    → Engine.find e key ≡ some entry
    → entry.token ≡ token
    → token ≢ other
    → Engine.release e key other ≡ (e, false)
unfolding Engine.release
release_other e key token other entry there same differs = ground arith

module _ (p : Packages) {st : Store} {n : Network} {fl : Float64} where
  acquire_answer :
      (s : Server st n fl) (k : ℕ) (key body : Bytes) (req : AcquireRequest) (retries : ℕ)
      (tokens : ℕ → Bytes) (clock : ℕ → ℕ) (between : ℕ → Cache st n → Cache st n)
      (headers : List (Bytes × Bytes)) (path : List Bytes) (method : Bytes)
      → p.decode_acquire body ≡ some req
      → req.retry_count ≡ pos retries
      → s.cache.closed ≡ false
      → owner_addr s.cache.cluster (lock_key (k ∷ key)) ≡ []
      → is_held s.cache.lock_engine (lock_key (k ∷ key)) (clock 0) ≡ false
      → let r : Request = record {
        method = method;
        path = path;
        headers = headers;
        body = some body;
      } in
        let o = handle_acquire p (k ∷ key) tokens clock between s new_writer r in
        let ttl = duration_or p default_lock_ttl req.ttl in
        (o.state
          ≡ record s { cache = holding s.cache (lock_key (k ∷ key)) ttl (tokens 0) (clock 0) })
        × (o.writer ≡ write_handle new_writer (granted s.cache (lock_key (k ∷ key)) (tokens 0)))
  unfolding handle_acquire read_json is_empty
  acquire_answer s k key body req retries tokens clock between headers path method decoded count
        open_cache here free =
      let ttl = duration_or p default_lock_ttl req.ttl in
      let got =
        lock_free s.cache (k ∷ key) tokens clock between ttl retries refl open_cache here free in
      ground (arith, decoded, count, got)

  release_refused :
      (s : Server st n fl) (k : ℕ) (key token : Bytes) (method : Bytes) (path : List Bytes)
      (headers : List (Bytes × Bytes)) (body : Option Bytes)
      → token ≢ []
      → Engine.release s.cache.lock_engine (lock_key (k ∷ key)) token ≡ (s.cache.lock_engine, false)
      → let r : Request = record {
        method = method;
        path = path;
        headers = (codes "X-Lock-Token", token) ∷ headers;
        body = body;
      } in
        let o = handle_release p (k ∷ key) s new_writer r in
        (o.writer.status ≡ some 409) × (o.state ≡ s)
  unfolding handle_release header lookup Bytes-discrete write_done write_json set_header
      write_header write
  release_refused s k key [] method path headers body there refusal = absurd (there refl)
  release_refused s k key (t ∷ token) method path headers body there refusal =
      rw refusal (refl, refl)

-- A number is never printed as the empty text.
digits_there : (fuel n c : ℕ) (acc : Bytes) → decimal_fuel fuel n (c ∷ acc) ≢ []
unfolding decimal_fuel
digits_there zero n c acc = cons-ne-nil c acc
digits_there (suc fuel) n c acc =
    ground (
      arith,
      cons-ne-nil (b'0' + n) (c ∷ acc),
      digits_there fuel (n / 10) (b'0' + n % 10) (c ∷ acc),
    )

decimal_there : (n : ℕ) → decimal n ≢ []
unfolding decimal decimal_fuel
decimal_there n =
    ground (arith, cons-ne-nil (b'0' + n) [], digits_there n (n / 10) (b'0' + n % 10) [])

-- Over HTTP, on an open cache and for a lock of this node that is not held: the answer to a request
-- for it carries the fencing token, as `token` too, and a request that shows this token, as it is
-- printed, releases nothing, if it is not by chance the token that the engine drew.
pub fencing_token_useless :
    (p : Packages) {st : Store} {n : Network} {fl : Float64} (s : Server st n fl) (k : ℕ)
    (key body : Bytes) (req : AcquireRequest) (retries : ℕ) (tokens : ℕ → Bytes) (clock : ℕ → ℕ)
    (between : ℕ → Cache st n → Cache st n) (path : List Bytes)
    → p.decode_acquire body ≡ some req
    → req.retry_count ≡ pos retries
    → s.cache.closed ≡ false
    → owner_addr s.cache.cluster (lock_key (k ∷ key)) ≡ []
    → is_held s.cache.lock_engine (lock_key (k ∷ key)) (clock 0) ≡ false
    → let fencing = (s.cache.lock_engine.fencing_seq + 1) % 2 ^ 64 in
      tokens 0 ≢ decimal fencing
      → let o =
          handle_acquire p
            (k ∷ key)
            tokens
            clock
            between
            s
            new_writer
            (record { method = codes "POST"; path = path; headers = []; body = some body }) in
        let o' = handle_release p (k ∷ key) o.state new_writer (record {
          method = codes "DELETE";
          path = path;
          headers = (codes "X-Lock-Token", decimal fencing) ∷ [];
          body = none;
        }) in
        (o.writer.status ≡ some 200)
        × (o.writer.body
            ≡ object (
                (codes "acquired", flag true)
                ∷ (codes "token", number (pos fencing))
                ∷ (codes "fencing_token", number (pos fencing))
                ∷ [])
              ∷ [])
        × (o'.writer.status ≡ some 409)
        × (o'.state ≡ o.state)
unfolding write_handle write_json write_header write set_header
fencing_token_useless p s k key body req retries tokens clock between path decoded count open_cache
      here free differs =
    let ttl = duration_or p default_lock_ttl req.ttl in
    let lk = lock_key (k ∷ key) in
    let (state, writer) =
      acquire_answer p s k key body req retries tokens clock between [] path (codes "POST") decoded
        count open_cache here free in
    let (entry, there, same) =
      acquired_lookup s.cache.lock_engine lk (tokens 0) (self_owner s.cache) ttl (clock 0) free in
    let refusal =
      release_other _ lk (tokens 0) (decimal ((s.cache.lock_engine.fencing_seq + 1) % 2 ^ 64)) entry
        there same differs in
    let (status, kept) =
      release_refused p (record s { cache = holding s.cache lk ttl (tokens 0) (clock 0) }) k key
        (decimal ((s.cache.lock_engine.fencing_seq + 1) % 2 ^ 64)) (codes "DELETE") path [] none
        (decimal_there _) refusal in
    rw (state, writer) (refl, refl, status, kept)
