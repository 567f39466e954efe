-- ===== src/Facade/Ops.antt =====
-- The operations of `Cache` of cache.go, and those of tags.go on the cache. `now` is what the clock
-- reads during a call.
use cache_grid.Base.{
  ℕ, Bytes, List, [], ◌∷◌, ◌++◌, map, Option, none, some, Bool, true, false, ◌||◌, not,
  if◌then◌else◌,
}
use cache_grid.Base.Int.{ℤ, pos, ltb_ℤ}
use cache_grid.Pubsub.Broker.{
  Event, event_set, event_delete, publish, fire_hit, fire_miss, fire_set, fire_delete,
}
use cache_grid.Rpc.Client.{Network, returned, failed, remote_exists}
use cache_grid.Tags.Index
use cache_grid.Tags.Index.{get_keys_by_tag}
use cache_grid.Facade.Parts.{
  Store, Marshaller, Value, Dest, serialize, deserialize, Cache, Effect, calls, calls_with,
  CacheError, err_key_empty, err_shutdown, err_serialization_failed, err_computed, err_unreadable,
}
use cache_grid.Facade.Routing.{owner_addr, distributed_set, distributed_get, distributed_delete}

unfoldable pub is_empty : Bytes → Bool
is_empty [] = true
is_empty (_ ∷ _) = false

-- The test of a TTL against 0.
unfoldable pub is_zero : ℤ → Bool
is_zero ttl = not (ltb_ℤ (pos 0) ttl || ltb_ℤ ttl (pos 0))

abbrev pub call_hooks : List (ℕ × Bytes) → List Effect
call_hooks = map (λ call. calls call.0 call.1)

module _ (matches : Bytes → Bytes → Bool) {V : Type 0} (m : Marshaller V) {st : Store}
    {n : Network} where
  -- The end of `Set`, once the value is stored.
  unfoldable pub announce_set : Cache st n → Bytes → Bytes → ℕ → Cache st n × List Effect
  announce_set c key raw now =
      let event : Event = record {
        type = event_set;
        key = key;
        value = raw;
        timestamp = none;
        node_name = [];
      } in
      (
        record c { broker = publish matches c.broker event now },
        map (λ call. calls_with call.0 call.1.0 call.1.1) (fire_set c.broker key raw),
      )

  -- `Set` of a value that was serialized.
  unfoldable pub set_raw :
      Cache st n → Bytes → Bytes → ℤ → ℕ → Cache st n × Option CacheError × List Effect
  unfolding announce_set is_zero
  set_raw c key raw ttl now =
      let ttl' = if is_zero ttl then c.config.default_ttl else ttl in
      let (c', err, effects) = distributed_set matches c key raw ttl' [] now in
      elim err [
        | some e ↦ (c', some e, effects)
        | none ↦ let (c'', more) = announce_set c' key raw now in (c'', none, effects ++ more)
      ]

  unfoldable pub set :
      Cache st n → Bytes → Value V → ℤ → ℕ → Cache st n × Option CacheError × List Effect
  unfolding set_raw
  set c key value ttl now =
      if is_empty key
      then (c, some err_key_empty, [])
      else if c.closed
      then (c, some err_shutdown, [])
      else elim (serialize m value) [
        | none ↦ (c, some err_serialization_failed, [])
        | some raw ↦ set_raw c key raw ttl now
      ]

  -- What is read into the destination; none is the answer false.
  unfoldable pub get : Cache st n → Bytes → Dest → ℕ → Cache st n × Option (Value V) × List Effect
  get c key dest now =
      if is_empty key || c.closed
      then (c, none, [])
      else let (c', found, effects) = distributed_get matches c key now in
        elim found [
          | none ↦ (c', none, effects ++ call_hooks (fire_miss c'.broker key))
          | some raw ↦ elim (deserialize m raw dest) [
            | none ↦ (c', none, effects)
            | some value ↦ (c', some value, effects ++ call_hooks (fire_hit c'.broker key))
          ]
        ]

  unfoldable pub delete : Cache st n → Bytes → ℕ → Cache st n × List Effect
  delete c key now =
      if is_empty key || c.closed
      then (c, [])
      else let (c', effects) = distributed_delete matches c key in
        let event : Event = record {
          type = event_delete;
          key = key;
          value = [];
          timestamp = none;
          node_name = [];
        } in
        (
          record c' {
            broker = publish matches c'.broker event now;
            tags = Index.remove c'.tags key;
          },
          effects ++ call_hooks (fire_delete c'.broker key),
        )

  unfoldable pub exists : Cache st n → Bytes → ℕ → Cache st n × Bool
  exists c key now =
      if is_empty key || c.closed then (c, false) else elim (owner_addr c.cluster key) [
        | [] ↦ let (s, ok) = st.exists c.store key now in (record c { store = s }, ok)
        | a ∷ addr ↦
            let ((w, t), outcome) = remote_exists n c.world c.transport (a ∷ addr) key in
            (
              record c { world = w; transport = t },
              elim outcome [ returned ok ↦ ok | failed _ ↦ false ],
            )
      ]

  -- Always the TTL in the store of this node.
  unfoldable pub ttl : Cache st n → Bytes → ℕ → Cache st n × ℤ
  ttl c key now =
      if is_empty key || c.closed
      then (c, pos 0)
      else let (s, left) = st.ttl c.store key now in (record c { store = s }, left)

  -- `fn` answers with a value, or none for its error.
  unfoldable pub get_or_set :
      Cache st n
      → Bytes
      → Dest
      → ℤ
      → Option (Value V)
      → ℕ
      → Cache st n × (Option CacheError × Option (Value V)) × List Effect
  unfolding set get
  get_or_set c key dest ttl computed now =
      if is_empty key
      then (c, (some err_key_empty, none), [])
      else if c.closed
      then (c, (some err_shutdown, none), [])
      else let (c', found, effects) = get c key dest now in
        elim found [
          | some value ↦ (c', (none, some value), effects)
          | none ↦ elim computed [
            | none ↦ (c', (some err_computed, none), effects)
            | some value ↦
                let (c'', err, more) = set c' key value ttl now in
                elim err [
                  | some e ↦ (c'', (some e, none), effects ++ more)
                  | none ↦ elim (serialize m value) [
                    | none ↦ (c'', (some err_serialization_failed, none), effects ++ more)
                    | some raw ↦ elim (deserialize m raw dest) [
                      | none ↦ (c'', (some err_unreadable, none), effects ++ more)
                      | some read ↦ (c'', (none, some read), effects ++ more)
                    ]
                  ]
                ]
          ]
        ]
