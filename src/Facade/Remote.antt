-- ===== src/Facade/Remote.antt =====
-- Two nodes of distributed.go: a key that another node owns is written there and read from there.
use cache_grid.Base.{
  ℕ, ◌≡◌, refl, sym, ◌∙◌, ap, subst, Bytes, List, [], ◌∷◌, none, some, Bool, true, false, arith,
}
use cache_grid.Base.Int.{ℤ, pos}
use cache_grid.Shard.Reads.{InTime}
use cache_grid.Config.Options.{Config, partitioned}
use cache_grid.Rpc.Client.{Network}
use cache_grid.Rpc.Laws.{served, connected, remote_calls}
use cache_grid.Facade.Parts.{Store, Marshaller, Value, Dest, serialize, deserialize, Cache}
use cache_grid.Facade.Routing.{owner_addr, distributed_set, distributed_get, send_set, fetch}
use cache_grid.Facade.Ops
use cache_grid.Facade.Ops.{is_empty, is_zero, announce_set, set_raw}
use cache_grid.Facade.Handler
use cache_grid.Facade.Handler.{handler}
use cache_grid.Facade.Reads.{
  ReadsBack, SameStore, effective_ttl, store_set_lem, get_found, set_open,
}

-- The network that leads to one node, at one reading of the clock.
abbrev pub peer : (Bytes → Bytes → Bool) → Bytes → Bytes → (st : Store) (n : Network) → ℕ → Network
peer matches error_text token st n now =
    served (handler matches error_text token {st = st} {n = n} now)

module _ (matches : Bytes → Bytes → Bool) (error_text token : Bytes) (st : Store) (n : Network)
    (now : ℕ) where
  handle_set_store :
      (b : Cache st n) (key raw : Bytes) (ttl : ℤ) (tags : List Bytes)
      → (Handler.handle_set matches error_text token {st = st} {n = n} now b key raw ttl tags).store
        ≡ (st.set b.store key raw ttl now).0
  unfolding Handler.handle_set
  handle_set_store b key raw ttl [] = (store_set_lem matches b key raw ttl now).store
  handle_set_store b key raw ttl (t ∷ tags) = (store_set_lem matches b key raw ttl now).store

  handle_get_found :
      (b : Cache st n) (key raw : Bytes)
      → (st.get b.store key now).1 ≡ some raw
      → ((Handler.handle_get matches error_text token {st = st} {n = n} now b key).1 ≡ raw)
        × ((Handler.handle_get matches error_text token {st = st} {n = n} now b key).2 ≡ true)
  unfolding Handler.handle_get
  handle_get_found b key raw found = rw (found, Handler.handle_get) (refl, refl)

  -- A write to the owner of a key.
  module _ {stA : Store} (c : Cache stA (peer matches error_text token st n now))
      (key a : Bytes) where
    send_set_peer :
        (raw : Bytes) (ttl : ℤ) (tags : List Bytes)
        → ((send_set matches c a key raw ttl tags).1 ≡ none)
          × ((send_set matches c a key raw ttl tags).0 ≡ record c {
            world =
                Handler.handle_set matches error_text token {st = st} {n = n} now c.world key raw
                  ttl tags;
            transport = connected c.transport a;
          })
    unfolding send_set
    send_set_peer raw ttl tags =
        let h = handler matches error_text token {st = st} {n = n} now in
        let sent = (remote_calls h c.world c.transport a key raw [] [] tags ttl 0).1 in
        rw (sent, send_set) (refl, refl)

    fetch_peer :
        (raw : Bytes)
        → (st.get c.world.store key now).1 ≡ some raw
        → (fetch matches c a key).1 ≡ some raw
    unfolding fetch
    fetch_peer raw found =
        let h = handler matches error_text token {st = st} {n = n} now in
        let got = (remote_calls h c.world c.transport a key raw [] [] [] (pos 0) 0).0 in
        let (value, there) = handle_get_found c.world key raw found in
        rw (got, fetch) (rw there (ap some value))

  module _ {stA : Store} (c : Cache stA (peer matches error_text token st n now)) (key : Bytes)
      (first : ℕ) (addr : Bytes) (mode : c.config.mode ≡ partitioned)
      (owner : owner_addr c.cluster key ≡ first ∷ addr) where
    distributed_set_owner :
        (raw : Bytes) (ttl : ℤ)
        → ((distributed_set matches c key raw ttl [] now).0
            ≡ (send_set matches c (first ∷ addr) key raw ttl []).0)
          × ((distributed_set matches c key raw ttl [] now).1
              ≡ (send_set matches c (first ∷ addr) key raw ttl []).1)
    unfolding distributed_set
    distributed_set_owner raw ttl = ground (arith, mode, owner)

    distributed_get_owner :
        (distributed_get matches c key now).1 ≡ (fetch matches c (first ∷ addr) key).1
    unfolding distributed_get
    distributed_get_owner = ground (arith, mode, owner)

    -- The node after a write to the owner.
    abbrev sent_set : Bytes → ℤ → Cache stA (peer matches error_text token st n now)
    sent_set raw ttl = record c {
      world = Handler.handle_set matches error_text token now c.world key raw ttl [];
      transport = connected c.transport (first ∷ addr);
    }

    -- `Set` on this node changes the other node, the pool, and the broker.
    set_raw_owner :
        {V : Type 0} (m : Marshaller V) (raw : Bytes) (ttl : ℤ)
        → ((set_raw matches m c key raw ttl now).1 ≡ none)
          × SameStore
              (sent_set raw (effective_ttl c.config.default_ttl ttl))
              (set_raw matches m c key raw ttl now).0
    unfolding set_raw effective_ttl announce_set
    set_raw_owner m raw ttl =
        let ttl' = effective_ttl c.config.default_ttl ttl in
        let (moved, err) = distributed_set_owner raw ttl' in
        let (ok, sent) = send_set_peer c key (first ∷ addr) raw ttl' [] in
        rw (err ∙ ok, set_raw)
          (
            refl,
            rw (moved ∙ sent) (record {
              store = refl;
              config = refl;
              closed = refl;
              cluster = refl;
              transport = refl;
              world = refl;
            }),
          )

-- On two open nodes in partitioned mode, at one reading of the clock: `Set` of a key that the other
-- node owns, and of a value that can be serialized, succeeds and stores it there, and `Get` then
-- reads those bytes, over a store of the owner that reads back what it admits. The owner is reached.
pub get-set_remote :
    (matches : Bytes → Bytes → Bool) (error_text token : Bytes) {V : Type 0} (m : Marshaller V)
    (st stA : Store) (n : Network) (Admits : st.S → Bytes → Bytes → Type 0) (now : ℕ)
    (c : Cache stA (peer matches error_text token st n now)) (key raw : Bytes) (value : Value V)
    (dest : Dest) (ttl : ℤ) (first : ℕ) (addr : Bytes)
    → ReadsBack st Admits
    → c.config.mode ≡ partitioned
    → owner_addr c.cluster key ≡ first ∷ addr
    → is_empty key ≡ false
    → c.closed ≡ false
    → serialize m value ≡ some raw
    → Admits c.world.store key raw
    → InTime (effective_ttl c.config.default_ttl ttl) now now
    → let (c', err, _) = Ops.set matches m c key value ttl now in
      (err ≡ none)
      × (c'.world.store
          ≡ (st.set c.world.store key raw (effective_ttl c.config.default_ttl ttl) now).0)
      × ((Ops.get matches m c' key dest now).1 ≡ deserialize m raw dest)
get-set_remote matches error_text token m st stA n Admits now c key raw value dest ttl first addr
      law mode owner named open_cache written admits time =
    let ttl' = effective_ttl c.config.default_ttl ttl in
    let (ok, same) =
      set_raw_owner matches error_text token st n now c key first addr mode owner m raw ttl in
    let stored =
      ap (λ (w : Cache st n). w.store) same.world
      ∙ handle_set_store matches error_text token st n now c.world key raw ttl' [] in
    let c' = (set_raw matches m c key raw ttl now).0 in
    let read =
      distributed_get_owner matches error_text token st n now c' key first addr
        (ap (λ (x : Config). x.mode) same.config ∙ mode)
        (ap (λ x. owner_addr x key) same.cluster ∙ owner)
      ∙ fetch_peer matches error_text token st n now c' key (first ∷ addr) raw (
          ap (λ s. (st.get s key now).1) stored
          ∙ law.get_set c.world.store key raw ttl' now now admits time) in
    subst
      (λ r.
        (r.1 ≡ none)
        × (r.0.world.store ≡ (st.set c.world.store key raw ttl' now).0)
        × ((Ops.get matches m r.0 key dest now).1 ≡ deserialize m raw dest))
      (sym (set_open matches m c key raw named open_cache value ttl now written))
      (ok, stored, get_found matches m c' key raw named (same.closed ∙ open_cache) dest now read)
