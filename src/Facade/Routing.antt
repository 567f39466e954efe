-- ===== src/Facade/Routing.antt =====
-- distributed.go: where a key lives, and the three modes of distribution. `now` is what the clock
-- reads during a call.
use cache_grid.Base.{
  ℕ, Bytes, Bytes-discrete, List, [], ◌∷◌, ◌++◌, map, Option, none, some, Bool, ite, if◌then◌else◌,
}
use cache_grid.Base.Int.{ℤ}
use cache_grid.Shard.State.{Fired}
use cache_grid.Config.Options.{partitioned, replicated, near_cache}
use cache_grid.Nodes.State as KnownNodes
use cache_grid.Nodes.State.{ClusterState, NodeInfo, live_nodes}
use cache_grid.Pubsub.Broker.{Event, event_evict, publish, fire_evict}
use cache_grid.Ring.State as HashRing
use cache_grid.Ring.State.{Ring}
use cache_grid.Rpc.Client.{Network, returned, failed, remote_get, remote_set, remote_delete}
use cache_grid.Rpc.Message.{Request, request, op_set, op_delete}
use cache_grid.Tags.Index
use cache_grid.Facade.Parts.{Store, Cache, Effect, calls_with, spawns, CacheError, err_remote}

-- The address of the owner of a key, or the empty one for a key that is served here.
unfoldable pub owner_addr : Option (Ring × ClusterState) → Bytes → Bytes
owner_addr none key = []
owner_addr (some (ring, state)) key =
    let owner = HashRing.get_node ring key in
    let remote : Bytes = elim (KnownNodes.get_node state owner) [
      | none ↦ []
      | some node ↦ node.rpc_addr
    ] in
    elim owner [ [] ↦ [] | c ∷ rest ↦ ite (Bytes-discrete (c ∷ rest) state.self) [] remote ]

-- The name of this node, or the empty one in local mode: the owner of the locks it grants.
unfoldable pub self_owner : {st : Store} {n : Network} → Cache st n → Bytes
self_owner c = elim c.cluster [ none ↦ [] | some (_, state) ↦ state.self ]

-- The nodes to which a replicated write goes.
unfoldable pub other_addrs : Bytes → List NodeInfo → List Bytes
other_addrs self [] = []
other_addrs self (node ∷ nodes) =
    let rest = other_addrs self nodes in
    ite (Bytes-discrete node.name self) rest (node.rpc_addr ∷ rest)

unfoldable pub replicas : Option (Ring × ClusterState) → List Bytes
unfolding other_addrs
replicas none = []
replicas (some (ring, state)) = other_addrs state.self (live_nodes state)

-- The request of `RemoteSet`.
abbrev pub set_request : Bytes → Bytes → ℤ → List Bytes → Request
set_request key raw ttl tags = record (request op_set key) { value = raw; ttl = ttl; tags = tags }

module _ (matches : Bytes → Bytes → Bool) {st : Store} {n : Network} where
  -- The callback that `New` sets for evictions, for each that the store reports.
  unfoldable pub evicted : Cache st n → List Fired → ℕ → Cache st n × List Effect
  evicted c [] now = (c, [])
  evicted c ((key, value) ∷ rest) now =
      let event : Event = record {
        type = event_evict;
        key = key;
        value = value;
        timestamp = none;
        node_name = [];
      } in
      let c' = record c {
        broker = publish matches c.broker event now;
        tags = Index.remove c.tags key;
      } in
      let (c'', effects) = evicted c' rest now in
      (
        c'',
        map (λ call. calls_with call.0 call.1.0 call.1.1) (fire_evict c.broker key value)
            ++ effects,
      )

  -- `c.store.Set`.
  unfoldable pub store_set : Cache st n → Bytes → Bytes → ℤ → ℕ → Cache st n × List Effect
  unfolding evicted
  store_set c key raw ttl now =
      let (s, fired) = st.set c.store key raw ttl now in evicted (record c { store = s }) fired now

  -- `c.store.Get`.
  unfoldable pub store_get : Cache st n → Bytes → ℕ → Cache st n × Option Bytes
  store_get c key now = let (s, found) = st.get c.store key now in (record c { store = s }, found)

  -- A `RemoteSet` that is waited for.
  unfoldable pub send_set :
      Cache st n → Bytes → Bytes → Bytes → ℤ → List Bytes → Cache st n × Option CacheError
  send_set c addr key raw ttl tags =
      let ((w, t), outcome) = remote_set n c.world c.transport addr key raw ttl tags in
      (
        record c { world = w; transport = t },
        elim outcome [ returned _ ↦ none | failed e ↦ some (err_remote e) ],
      )

  -- A `RemoteGet`: a value, or none where it is not found or the call failed.
  unfoldable pub fetch : Cache st n → Bytes → Bytes → Cache st n × Option Bytes
  fetch c addr key =
      let ((w, t), outcome) = remote_get n c.world c.transport addr key in
      (
        record c { world = w; transport = t },
        elim outcome [ returned r ↦ if r.1 then some r.0 else none | failed _ ↦ none ],
      )

  -- A `RemoteDelete` whose error is ignored.
  unfoldable pub send_delete : Cache st n → Bytes → Bytes → Cache st n
  send_delete c addr key =
      let ((w, t), _) = remote_delete n c.world c.transport addr key in
      record c { world = w; transport = t }

  unfoldable pub distributed_set :
      Cache st n → Bytes → Bytes → ℤ → List Bytes → ℕ → Cache st n × Option CacheError × List Effect
  unfolding owner_addr
  distributed_set c key raw ttl tags now = elim c.config.mode [
    | replicated ↦
        let (c', effects) = store_set c key raw ttl now in
        (
          c',
          none,
          effects ++ map (λ addr. spawns addr (set_request key raw ttl tags)) (replicas c.cluster),
        )
    | near_cache ↦
        let (c', effects) = store_set c key raw ttl now in
        elim (owner_addr c.cluster key) [
          | [] ↦ (c', none, effects)
          | a ∷ addr ↦
              let (c'', err) = send_set c' (a ∷ addr) key raw ttl tags in (c'', err, effects)
        ]
    | partitioned ↦ elim (owner_addr c.cluster key) [
      | [] ↦ let (c', effects) = store_set c key raw ttl now in (c', none, effects)
      | a ∷ addr ↦ let (c', err) = send_set c (a ∷ addr) key raw ttl tags in (c', err, [])
    ]
  ]

  -- A near cache keeps what it fetched, with the default TTL.
  unfoldable pub distributed_get : Cache st n → Bytes → ℕ → Cache st n × Option Bytes × List Effect
  unfolding owner_addr
  distributed_get c key now = elim c.config.mode [
    | replicated ↦ let (c', found) = store_get c key now in (c', found, [])
    | near_cache ↦
        let (c', found) = store_get c key now in
        elim found [
          | some raw ↦ (c', some raw, [])
          | none ↦ elim (owner_addr c.cluster key) [
            | [] ↦ (c', none, [])
            | a ∷ addr ↦
                let (c'', fetched) = fetch c' (a ∷ addr) key in
                elim fetched [
                  | none ↦ (c'', none, [])
                  | some raw ↦
                      let (c₃, effects) = store_set c'' key raw c.config.default_ttl now in
                      (c₃, some raw, effects)
                ]
          ]
        ]
    | partitioned ↦ elim (owner_addr c.cluster key) [
      | [] ↦ let (c', found) = store_get c key now in (c', found, [])
      | a ∷ addr ↦ let (c', fetched) = fetch c (a ∷ addr) key in (c', fetched, [])
    ]
  ]

  unfoldable pub distributed_delete : Cache st n → Bytes → Cache st n × List Effect
  unfolding owner_addr
  distributed_delete c key =
      let here = record c { store = (st.delete c.store key).0 } in
      elim c.config.mode [
        | replicated ↦
            (here, map (λ addr. spawns addr (request op_delete key)) (replicas c.cluster))
        | near_cache ↦ elim (owner_addr c.cluster key) [
          | [] ↦ (here, [])
          | a ∷ addr ↦ (send_delete here (a ∷ addr) key, [])
        ]
        | partitioned ↦ elim (owner_addr c.cluster key) [
          | [] ↦ (here, [])
          | a ∷ addr ↦ (send_delete c (a ∷ addr) key, [])
        ]
      ]
