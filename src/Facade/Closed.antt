-- ===== src/Facade/Closed.antt =====
-- What the operations of a cache answer after `Shutdown`.
use cache_grid.Base.{
  ℕ, ◌≡◌, refl, Bytes, List, [], ◌∷◌, Option, none, some, Bool, true, false, arith, Bool-cases,
  Option-cases, inl, inr,
}
use cache_grid.Base.Int.{ℤ, pos}
use cache_grid.Facade.Bulk.{mget, mset, incr, decr, set_with_tags, delete_each, invalidate_tag}
use cache_grid.Facade.Lifecycle.{shutdown}
use cache_grid.Facade.Locks.{refused, lock, try_lock}
use cache_grid.Facade.Ops
use cache_grid.Facade.Ops.{is_empty}
use cache_grid.Facade.Parts.{Store, Marshaller, Value, Dest, Cache, err_shutdown}
use cache_grid.Lock.Engine
use cache_grid.Pubsub.Broker.{Subscription}
use cache_grid.Rpc.Client.{Network}
use cache_grid.Tags.Index.{get_keys_by_tag}

module _ {st : Store} {n : Network} where
  -- The engine of a closed cache has been shut down too.
  shutdown_closed :
      (c c' : Cache st n) (subs : List Subscription)
      → shutdown c ≡ some (c', subs)
      → c'.closed ≡ true
  unfolding shutdown
  shutdown_closed c c' subs done = elim (Bool-cases c.closed) [
    | inl e ↦ ground (arith, e, done)
    | inr e ↦ elim (Option-cases (Engine.shutdown c.lock_engine)) [
      | inl none_left ↦ ground (arith, e, none_left, done)
      | inr (engine, there) ↦ ground (arith, e, there, done)
    ]
  ]

module _ (matches : Bytes → Bytes → Bool) {V : Type 0} (m : Marshaller V) {st : Store} {n : Network}
    (c : Cache st n) (key : Bytes) (named : is_empty key ≡ false) (closed : c.closed ≡ true) where
  set_closed :
      (value : Value V) (ttl : ℤ) (now : ℕ)
      → Ops.set matches m c key value ttl now ≡ (c, some err_shutdown, [])
  unfolding Ops.set
  set_closed value ttl now = ground (arith, named, closed)

  get_closed : (dest : Dest) (now : ℕ) → Ops.get matches m c key dest now ≡ (c, none, [])
  unfolding Ops.get
  get_closed dest now = ground (arith, named, closed)

  delete_closed : (now : ℕ) → Ops.delete matches m c key now ≡ (c, [])
  unfolding Ops.delete
  delete_closed now = ground (arith, named, closed)

  looks_closed :
      (now : ℕ)
      → (Ops.exists matches m c key now ≡ (c, false)) × (Ops.ttl matches m c key now ≡ (c, pos 0))
  unfolding Ops.exists Ops.ttl
  looks_closed now = ground (arith, named, closed)

  counters_closed :
      (delta now : ℕ)
      → (incr matches m c key delta now ≡ (c, (some err_shutdown, 0), []))
        × (decr matches m c key delta now ≡ (c, (some err_shutdown, 0), []))
  unfolding incr decr
  counters_closed delta now = ground (arith, named, closed)

  bulk_closed :
      (keys : List Bytes) (items : List (Bytes × (Value V × ℤ))) (now : ℕ)
      → (mget matches m c keys now ≡ (c, [], []))
        × (mset matches m c items now ≡ (c, some err_shutdown, []))
  unfolding mget mset
  bulk_closed keys items now = ground (arith, closed)

  tags_closed :
      (value : Value V) (ttl : ℤ) (tags : List Bytes) (now : ℕ)
      → set_with_tags matches m c key value ttl tags now ≡ (c, some err_shutdown, [])
  unfolding set_with_tags
  tags_closed value ttl tags now = ground (arith, set_closed value ttl now)

  get_or_set_closed :
      (dest : Dest) (ttl : ℤ) (computed : Option (Value V)) (now : ℕ)
      → Ops.get_or_set matches m c key dest ttl computed now ≡ (c, (some err_shutdown, none), [])
  unfolding Ops.get_or_set
  get_or_set_closed dest ttl computed now = ground (arith, named, closed)

  lock_closed :
      (tokens : ℕ → Bytes) (clock : ℕ → ℕ) (between : ℕ → Cache st n → Cache st n) (ttl retries : ℤ)
      → lock tokens clock between c key ttl retries ≡ (c, refused err_shutdown)
  unfolding lock
  lock_closed tokens clock between ttl retries = ground (arith, named, closed)

  try_lock_closed : (ttl : ℤ) (token : Bytes) (now : ℕ) → try_lock c key ttl token now ≡ (c, none)
  unfolding try_lock
  try_lock_closed ttl token now =
      rw (try_lock, lock_closed (λ _. token) (λ _. now) (λ _ x. x) ttl (pos 0)) refl

module _ (matches : Bytes → Bytes → Bool) {V : Type 0} (m : Marshaller V) {st : Store} {n : Network}
    (c : Cache st n) (closed : c.closed ≡ true) where
  delete_each_closed : (keys : List Bytes) (now : ℕ) → delete_each matches m c keys now ≡ (c, [])
  unfolding delete_each Ops.delete
  delete_each_closed [] now = refl
  delete_each_closed (key ∷ keys) now = ground (arith, closed, delete_each_closed keys now)

-- After `Shutdown`, these operations leave the cache as it is and have no effect, for a key that is
-- not empty: `Set`, `MSet`, `SetWithTags`, `GetOrSet`, `Incr`, `Decr` and `Lock` answer with the error
-- of a cache that is shut down, `Get`, `MGet`, `Exists`, `TTL` and `TryLock` find nothing, and
-- `Delete` and `InvalidateTag` delete nothing. `RateLimit` and `RateLimitSliding`, which do not ask
-- whether the cache is shut down, are left aside, as are handles of locks and subscriptions.
pub shutdown_refuses :
    (matches : Bytes → Bytes → Bool) {V : Type 0} (m : Marshaller V) {st : Store} {n : Network}
    (before c : Cache st n) (subs : List Subscription) (key : Bytes) (value : Value V) (dest : Dest)
    (computed : Option (Value V)) (tag token : Bytes) (ttl retries : ℤ) (tags keys : List Bytes)
    (items : List (Bytes × (Value V × ℤ))) (delta now : ℕ) (tokens : ℕ → Bytes) (clock : ℕ → ℕ)
    (between : ℕ → Cache st n → Cache st n)
    → shutdown before ≡ some (c, subs)
    → is_empty key ≡ false
    → (Ops.set matches m c key value ttl now ≡ (c, some err_shutdown, []))
      × (mset matches m c items now ≡ (c, some err_shutdown, []))
      × (set_with_tags matches m c key value ttl tags now ≡ (c, some err_shutdown, []))
      × (Ops.get_or_set matches m c key dest ttl computed now ≡ (c, (some err_shutdown, none), []))
      × (incr matches m c key delta now ≡ (c, (some err_shutdown, 0), []))
      × (decr matches m c key delta now ≡ (c, (some err_shutdown, 0), []))
      × (lock tokens clock between c key ttl retries ≡ (c, refused err_shutdown))
      × (try_lock c key ttl token now ≡ (c, none))
      × (Ops.get matches m c key dest now ≡ (c, none, []))
      × (mget matches m c keys now ≡ (c, [], []))
      × (Ops.exists matches m c key now ≡ (c, false))
      × (Ops.ttl matches m c key now ≡ (c, pos 0))
      × (Ops.delete matches m c key now ≡ (c, []))
      × (invalidate_tag matches m c tag now ≡ (c, []))
unfolding invalidate_tag
shutdown_refuses matches m before c subs key value dest computed tag token ttl retries tags keys
      items delta now tokens clock between done named =
    let closed = shutdown_closed before c subs done in
    let (found, left) = looks_closed matches m c key named closed now in
    let (up, down) = counters_closed matches m c key named closed delta now in
    let (read, written) = bulk_closed matches m c key named closed keys items now in
    (
      set_closed matches m c key named closed value ttl now,
      written,
      tags_closed matches m c key named closed value ttl tags now,
      get_or_set_closed matches m c key named closed dest ttl computed now,
      up,
      down,
      lock_closed matches m c key named closed tokens clock between ttl retries,
      try_lock_closed matches m c key named closed ttl token now,
      get_closed matches m c key named closed dest now,
      read,
      found,
      left,
      delete_closed matches m c key named closed now,
      delete_each_closed matches m c closed (get_keys_by_tag c.tags tag) now,
    )
