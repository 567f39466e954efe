-- ===== src/Facade/Reads.antt =====
-- What the cache of cache.go lets its caller read back, wherever the key is served.
use cache_grid.Base.{
  ℕ, ◌≡◌, ◌⊎◌, refl, sym, ◌∙◌, ap, subst, Bytes, List, [], ◌∷◌, none, some, Bool, false, arith,
  if◌then◌else◌, inl, inr,
}
use cache_grid.Base.Int.{ℤ}
use cache_grid.Shard.State.{Fired}
use cache_grid.Shard.Reads.{InTime}
use cache_grid.Config.Options.{Mode, partitioned, replicated, near_cache}
use cache_grid.Rpc.Client.{Network}
use cache_grid.Pubsub.Broker.{Event, event_evict, publish}
use cache_grid.Tags.Index
use cache_grid.Facade.Parts.{Store, Marshaller, Value, Dest, serialize, deserialize, Cache}
use cache_grid.Facade.Routing.{
  owner_addr, evicted, store_set, store_get, distributed_set, distributed_get,
}
use cache_grid.Facade.Ops
use cache_grid.Facade.Ops.{is_empty, is_zero, announce_set, set_raw}

-- Nothing but the broker and the tags is new.
pub record SameStore {st : Store} {n : Network} (c d : Cache st n) : Type 0 where
  pub store : d.store ≡ c.store
  pub config : d.config ≡ c.config
  pub closed : d.closed ≡ c.closed
  pub cluster : d.cluster ≡ c.cluster
  pub transport : d.transport ≡ c.transport
  pub world : d.world ≡ c.world

mode_cases : (m : Mode) → (m ≡ partitioned) ⊎ ((m ≡ replicated) ⊎ (m ≡ near_cache))
mode_cases partitioned = inl refl
mode_cases replicated = inr (inl refl)
mode_cases near_cache = inr (inr refl)

module _ (matches : Bytes → Bytes → Bool) {st : Store} {n : Network} where
  pub evicted-SameStore :
      (fired : List Fired) (c : Cache st n) (now : ℕ) → SameStore c (evicted matches c fired now).0
  unfolding evicted
  evicted-SameStore [] c now = record {
    store = refl;
    config = refl;
    closed = refl;
    cluster = refl;
    transport = refl;
    world = refl;
  }
  evicted-SameStore ((key, value) ∷ rest) c now =
      let event : Event = record {
        type = event_evict;
        key = key;
        value = value;
        timestamp = none;
        node_name = [];
      } in
      let ih =
        evicted-SameStore rest
          (record c { broker = publish matches c.broker event now; tags = Index.remove c.tags key })
          now in
      record {
        store = ih.store;
        config = ih.config;
        closed = ih.closed;
        cluster = ih.cluster;
        transport = ih.transport;
        world = ih.world;
      }

  -- A write on this node.
  pub store_set_lem :
      (c : Cache st n) (key raw : Bytes) (ttl : ℤ) (now : ℕ)
      → SameStore
          (record c { store = (st.set c.store key raw ttl now).0 })
          (store_set matches c key raw ttl now).0
  unfolding store_set
  store_set_lem c key raw ttl now =
      evicted-SameStore (st.set c.store key raw ttl now).1
        (record c { store = (st.set c.store key raw ttl now).0 }) now

  -- A key that is served here is written to the store of this node, and read from it.
  distributed_set_local :
      (c : Cache st n) (key raw : Bytes) (ttl : ℤ) (tags : List Bytes) (now : ℕ)
      → owner_addr c.cluster key ≡ []
      → ((distributed_set matches c key raw ttl tags now).0
          ≡ (store_set matches c key raw ttl now).0)
        × ((distributed_set matches c key raw ttl tags now).1 ≡ none)
  unfolding distributed_set
  distributed_set_local c key raw ttl tags now here = elim (mode_cases c.config.mode) [
    | inl p ↦ ground (arith, p, here)
    | inr (inl p) ↦ ground (arith, p, here)
    | inr (inr p) ↦ ground (arith, p, here)
  ]

  distributed_set_here :
      (c : Cache st n) (key raw : Bytes) (ttl : ℤ) (tags : List Bytes) (now : ℕ)
      → owner_addr c.cluster key ≡ []
      → ((distributed_set matches c key raw ttl tags now).1 ≡ none)
        × SameStore
            (record c { store = (st.set c.store key raw ttl now).0 })
            (distributed_set matches c key raw ttl tags now).0
  distributed_set_here c key raw ttl tags now here =
      let (same, ok) = distributed_set_local c key raw ttl tags now here in
      (
        ok,
        subst (SameStore (record c { store = (st.set c.store key raw ttl now).0 })) (sym same)
            (store_set_lem c key raw ttl now),
      )

  distributed_get_here :
      (c : Cache st n) (key : Bytes) (now : ℕ)
      → owner_addr c.cluster key ≡ []
      → (distributed_get matches c key now).1 ≡ (st.get c.store key now).1
  unfolding distributed_get store_get
  distributed_get_here c key now here = elim (mode_cases c.config.mode) [
    | inl p ↦ ground (arith, p, here)
    | inr (inl p) ↦ ground (arith, p, here)
    | inr (inr p) ↦ ground (arith, p, here)
  ]

-- A store reads back what it was given, until its lifetime has passed, where it admits the entry.
pub record ReadsBack (st : Store) (Admits : st.S → Bytes → Bytes → Type 0) : Type 0 where
  pub get_set :
      (s : st.S) (key raw : Bytes) (ttl : ℤ) (now later : ℕ)
      → Admits s key raw
      → InTime ttl now later
      → (st.get (st.set s key raw ttl now).0 key later).1 ≡ some raw

-- The TTL with which `Set` stores.
unfoldable pub effective_ttl : ℤ → ℤ → ℤ
unfolding is_zero
effective_ttl default_ttl ttl = if is_zero ttl then default_ttl else ttl

module _ (matches : Bytes → Bytes → Bool) {V : Type 0} (m : Marshaller V) {st : Store} {n : Network}
    (c : Cache st n) (key : Bytes) (here : owner_addr c.cluster key ≡ []) where
  set_raw_here :
      (raw : Bytes) (ttl : ℤ) (now : ℕ)
      → ((set_raw matches m c key raw ttl now).1 ≡ none)
        × SameStore
            (record c {
              store = (st.set c.store key raw (effective_ttl c.config.default_ttl ttl) now).0;
            })
            (set_raw matches m c key raw ttl now).0
  unfolding set_raw effective_ttl announce_set
  set_raw_here raw ttl now =
      let (ok, same) =
        distributed_set_here matches c key raw (effective_ttl c.config.default_ttl ttl) [] now
          here in
      rw (ok, set_raw)
        (
          refl,
          record {
            store = same.store;
            config = same.config;
            closed = same.closed;
            cluster = same.cluster;
            transport = same.transport;
            world = same.world;
          },
        )

module _ (matches : Bytes → Bytes → Bool) {V : Type 0} (m : Marshaller V) {st : Store} {n : Network}
    (c : Cache st n) (key raw : Bytes) (named : is_empty key ≡ false)
    (open_cache : c.closed ≡ false) where
  pub get_found :
      (dest : Dest) (now : ℕ)
      → (distributed_get matches c key now).1 ≡ some raw
      → (Ops.get matches m c key dest now).1 ≡ deserialize m raw dest
  unfolding Ops.get
  get_found dest now found = ground arith

  pub set_open :
      (value : Value V) (ttl : ℤ) (now : ℕ)
      → serialize m value ≡ some raw
      → Ops.set matches m c key value ttl now ≡ set_raw matches m c key raw ttl now
  unfolding Ops.set
  set_open value ttl now written = ground arith

-- On an open cache, in any mode, a key that is served on this node: `Set` of a value that can be
-- serialized succeeds, and `Get` then reads the bytes that were stored, until the lifetime has
-- passed, over a store that reads back what it admits.
pub get-set_here :
    (matches : Bytes → Bytes → Bool) {V : Type 0} (m : Marshaller V) (st : Store) {n : Network}
    (Admits : st.S → Bytes → Bytes → Type 0) (c : Cache st n) (key raw : Bytes) (value : Value V)
    (dest : Dest) (ttl : ℤ) (now later : ℕ)
    → ReadsBack st Admits
    → owner_addr c.cluster key ≡ []
    → is_empty key ≡ false
    → c.closed ≡ false
    → serialize m value ≡ some raw
    → Admits c.store key raw
    → InTime (effective_ttl c.config.default_ttl ttl) now later
    → let (c', err, _) = Ops.set matches m c key value ttl now in
      (err ≡ none) × ((Ops.get matches m c' key dest later).1 ≡ deserialize m raw dest)
get-set_here matches m st Admits c key raw value dest ttl now later law here named open_cache
      written admits time =
    let (ok, same) = set_raw_here matches m c key here raw ttl now in
    let c' = (set_raw matches m c key raw ttl now).0 in
    let found =
      ap (λ s. (st.get s key later).1) same.store
      ∙ law.get_set c.store key raw (effective_ttl c.config.default_ttl ttl) now later admits
          time in
    let read = get_found matches m c' key raw named (same.closed ∙ open_cache) dest later (
      distributed_get_here matches c' key later (ap (λ cl. owner_addr cl key) same.cluster ∙ here)
      ∙ found) in
    subst (λ r. (r.1 ≡ none) × ((Ops.get matches m r.0 key dest later).1 ≡ deserialize m raw dest))
      (sym (set_open matches m c key raw named open_cache value ttl now written)) (ok, read)
