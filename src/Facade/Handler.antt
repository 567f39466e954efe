-- ===== src/Facade/Handler.antt =====
-- The `LocalHandler` that distributed.go makes of the cache: the calls of the other nodes. Effects
-- of a call that arrives are left aside. `error_text` is the text of an error of the store, and
-- `token` the random token that a lock gets.
use cache_grid.Base.{ℕ, Bytes, Bytes-discrete, List, [], ◌∷◌, Option, none, some, Bool, true, false}
use cache_grid.Base.Int.{ℤ}
use cache_grid.Base.GoMap
use cache_grid.Lock.Engine
use cache_grid.Rpc.Client.{Network}
use cache_grid.Rpc.Message.{LocalHandler}
use cache_grid.Tags.Index
use cache_grid.Facade.Parts.{Store, Cache}
use cache_grid.Facade.Routing.{evicted, store_set, store_get, self_owner}

module _ (matches : Bytes → Bytes → Bool) (error_text token : Bytes) {st : Store} {n : Network}
    (now : ℕ) where
  unfoldable pub handle_get : Cache st n → Bytes → Cache st n × Bytes × Bool
  handle_get c key =
      let (s, found) = st.get c.store key now in
      let c' = record c { store = s } in
      elim found [ none ↦ (c', [], false) | some raw ↦ (c', raw, true) ]

  unfoldable pub handle_set : Cache st n → Bytes → Bytes → ℤ → List Bytes → Cache st n
  handle_set c key raw ttl tags =
      let c' = (store_set matches c key raw ttl now).0 in
      elim tags [ [] ↦ c' | t ∷ ts ↦ record c' { tags = Index.add c'.tags key (t ∷ ts) } ]

  unfoldable pub handle_delete : Cache st n → Bytes → Cache st n × Bool
  handle_delete c key =
      let (s, ok) = st.delete c.store key in
      (record c { tags = Index.remove c.tags key; store = s }, ok)

  unfoldable pub handle_exists : Cache st n → Bytes → Cache st n × Bool
  handle_exists c key = let (s, ok) = st.exists c.store key now in (record c { store = s }, ok)

  -- The loop of `HandleMGet`, with the results so far.
  unfoldable pub handle_mget :
      Cache st n → List Bytes → List (Bytes × Bytes) → Cache st n × List (Bytes × Bytes)
  unfolding store_get
  handle_mget c [] results = (c, results)
  handle_mget c (key ∷ keys) results =
      let (c', found) = store_get matches c key now in
      let results' : List (Bytes × Bytes) = elim found [
        | none ↦ results
        | some raw ↦ GoMap.insert Bytes-discrete key raw results
      ] in
      handle_mget c' keys results'

  unfoldable pub handle_incr : Cache st n → Bytes → ℕ → Cache st n × ℕ × Option Bytes
  unfolding evicted
  handle_incr c key delta =
      let (s, result, fired) = st.incr c.store key delta c.config.default_ttl now in
      let c' = (evicted matches (record c { store = s }) fired now).0 in
      elim result [ none ↦ (c', 0, some error_text) | some sum ↦ (c', sum, none) ]

  unfoldable pub handle_lock_acquire : Cache st n → Bytes → ℤ → Cache st n × Bytes × ℕ × Bool
  unfolding self_owner
  handle_lock_acquire c key ttl =
      let (e, granted) = Engine.acquire c.lock_engine key ttl (self_owner c) token now now in
      let c' = record c { lock_engine = e } in
      elim granted [ none ↦ (c', [], 0, false) | some (tok, fencing) ↦ (c', tok, fencing, true) ]

  unfoldable pub handle_lock_release : Cache st n → Bytes → Bytes → Cache st n × Bool
  handle_lock_release c key tok =
      let (e, ok) = Engine.release c.lock_engine key tok in (record c { lock_engine = e }, ok)

  unfoldable pub handle_lock_extend : Cache st n → Bytes → Bytes → ℤ → Cache st n × Bool
  handle_lock_extend c key tok ttl =
      let (e, ok) = Engine.extend c.lock_engine key tok ttl now now in
      (record c { lock_engine = e }, ok)

  abbrev pub handler : LocalHandler (Cache st n)
  handler = record {
    handle_get = handle_get;
    handle_set = handle_set;
    handle_delete = handle_delete;
    handle_exists = handle_exists;
    handle_mget = λ c keys. handle_mget c keys [];
    handle_incr = handle_incr;
    handle_lock_acquire = handle_lock_acquire;
    handle_lock_release = handle_lock_release;
    handle_lock_extend = handle_lock_extend;
  }
