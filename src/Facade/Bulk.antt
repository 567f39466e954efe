-- ===== src/Facade/Bulk.antt =====
-- The operations of `Cache` of cache.go on several keys and on counters, and those of tags.go.
use cache_grid.Base.{
  ℕ, ◌-◌, ◌%◌, ◌^◌, Bytes, Bytes-discrete, List, [], ◌∷◌, ◌++◌, Option, none, some, Bool,
  if◌then◌else◌,
}
use cache_grid.Base.Int.{ℤ}
use cache_grid.Base.GoMap
use cache_grid.Rpc.Client.{Network, returned, failed, remote_incr}
use cache_grid.Tags.Index
use cache_grid.Tags.Index.{get_keys_by_tag}
use cache_grid.Facade.Parts.{
  Store, Marshaller, Value, Cache, Effect, CacheError, err_key_empty, err_shutdown, err_remote,
  err_store,
}
use cache_grid.Facade.Routing.{owner_addr, evicted, distributed_get}
use cache_grid.Facade.Ops.{is_empty, set, delete}

-- An int64 with the other sign.
unfoldable pub negate : ℕ → ℕ
negate delta = (2 ^ 64 - delta % 2 ^ 64) % 2 ^ 64

module _ (matches : Bytes → Bytes → Bool) {V : Type 0} (m : Marshaller V) {st : Store}
    {n : Network} where
  -- The loop of `MGet`, with the results so far.
  unfoldable pub mget_loop :
      Cache st n
      → List Bytes
      → List (Bytes × Bytes)
      → ℕ
      → Cache st n × List (Bytes × Bytes) × List Effect
  mget_loop c [] results now = (c, results, [])
  mget_loop c ([] ∷ keys) results now = mget_loop c keys results now
  mget_loop c ((k ∷ key) ∷ keys) results now =
      let (c', found, effects) = distributed_get matches c (k ∷ key) now in
      let results' : List (Bytes × Bytes) = elim found [
        | none ↦ results
        | some raw ↦ GoMap.insert Bytes-discrete (k ∷ key) raw results
      ] in
      let (c'', all, more) = mget_loop c' keys results' now in (c'', all, effects ++ more)

  unfoldable pub mget :
      Cache st n → List Bytes → ℕ → Cache st n × List (Bytes × Bytes) × List Effect
  unfolding mget_loop
  mget c keys now = if c.closed then (c, [], []) else mget_loop c keys [] now

  -- The loop of `MSet`, in the order in which the map is walked.
  unfoldable pub mset_loop :
      Cache st n → List (Bytes × (Value V × ℤ)) → ℕ → Cache st n × Option CacheError × List Effect
  unfolding set
  mset_loop c [] now = (c, none, [])
  mset_loop c ((key, item) ∷ items) now =
      let (c', err, effects) = set matches m c key item.0 item.1 now in
      let (c'', err', more) = mset_loop c' items now in
      elim err [ some e ↦ (c', some e, effects) | none ↦ (c'', err', effects ++ more) ]

  unfoldable pub mset :
      Cache st n → List (Bytes × (Value V × ℤ)) → ℕ → Cache st n × Option CacheError × List Effect
  unfolding mset_loop
  mset c items now = if c.closed then (c, some err_shutdown, []) else mset_loop c items now

  unfoldable pub incr :
      Cache st n → Bytes → ℕ → ℕ → Cache st n × (Option CacheError × ℕ) × List Effect
  incr c key delta now =
      if is_empty key
      then (c, (some err_key_empty, 0), [])
      else if c.closed
      then (c, (some err_shutdown, 0), [])
      else elim (owner_addr c.cluster key) [
        | [] ↦
            let (s, result, fired) = st.incr c.store key delta c.config.default_ttl now in
            let (c', effects) = evicted matches (record c { store = s }) fired now in
            elim result [
              | none ↦ (c', (some err_store, 0), effects)
              | some sum ↦ (c', (none, sum), effects)
            ]
        | a ∷ addr ↦
            let ((w, t), outcome) = remote_incr n c.world c.transport (a ∷ addr) key delta in
            (
              record c { world = w; transport = t },
              elim outcome [ returned sum ↦ (none, sum) | failed e ↦ (some (err_remote e), 0) ],
              [],
            )
      ]

  unfoldable pub decr :
      Cache st n → Bytes → ℕ → ℕ → Cache st n × (Option CacheError × ℕ) × List Effect
  unfolding incr negate
  decr c key delta now = incr c key (negate delta) now

  unfoldable pub len : Cache st n → ℕ
  len c = st.len c.store

  unfoldable pub set_with_tags :
      Cache st n
      → Bytes
      → Value V
      → ℤ
      → List Bytes
      → ℕ
      → Cache st n × Option CacheError × List Effect
  unfolding set
  set_with_tags c key value ttl tags now =
      let (c', err, effects) = set matches m c key value ttl now in
      elim err [
        | some e ↦ (c', some e, effects)
        | none ↦ elim tags [
          | [] ↦ (c', none, effects)
          | t ∷ ts ↦ (record c' { tags = Index.add c'.tags key (t ∷ ts) }, none, effects)
        ]
      ]

  unfoldable pub delete_each : Cache st n → List Bytes → ℕ → Cache st n × List Effect
  unfolding delete
  delete_each c [] now = (c, [])
  delete_each c (key ∷ keys) now =
      let (c', effects) = delete matches m c key now in
      let (c'', more) = delete_each c' keys now in (c'', effects ++ more)

  unfoldable pub invalidate_tag : Cache st n → Bytes → ℕ → Cache st n × List Effect
  unfolding delete_each
  invalidate_tag c tag now = delete_each c (get_keys_by_tag c.tags tag) now
