-- ===== src/Pubsub/Delivery.antt =====
-- What the broker of internal/pubsub delivers.
use cache_grid.Base.{
  ℕ, ◌-◌, ◌≡◌, refl, Bytes, List, [], ◌∷◌, ◌++◌, some, Bool, false, ltb, if◌then◌else◌, lookup,
  length, length-append, ℕ_discrete, arith, Bool-cases, inl, inr,
}
use mathlib.Core.List.{append-nil, append_assoc}
use mathlib.Core.Option
use cache_grid.Pubsub.Broker
use cache_grid.Pubsub.Broker.{
  Event, Subscription, new_subscription, new_broker, subscribe, unsubscribe, offer, offer_all,
  publish, stamp, default_buf_size,
}

module _ (matches : Bytes → Bytes → Bool) where
  lookup-offer_all :
      (event : Event) (id : ℕ) (m : List (ℕ × Subscription))
      → lookup ℕ_discrete id (offer_all matches event m)
        ≡ Option.map (offer matches event) (lookup ℕ_discrete id m)
  unfolding offer_all lookup
  lookup-offer_all event id [] = refl
  lookup-offer_all event id ((j, s) ∷ m) = ground (arith, lookup-offer_all event id m)

  -- A series of calls of `Publish`, with the readings of the clock.
  unfoldable pub publish_all : List (Event × ℕ) → Broker.Broker → Broker.Broker
  publish_all [] b = b
  publish_all ((event, now) ∷ rest) b = publish_all rest (publish matches b event now)

  -- The first events that the pattern admits, as many as there is room for.
  unfoldable pub admitted : Bytes → ℕ → List (Event × ℕ) → List Event
  admitted pattern room [] = []
  admitted pattern room ((event, now) ∷ rest) =
      let wanted = matches pattern event.key in
      let skip = admitted pattern room rest in
      let take = admitted pattern (room - 1) rest in
      if wanted then (if ltb 0 room then stamp event now ∷ take else skip) else skip

  find-publish :
      (b : Broker.Broker) (event : Event) (now id : ℕ)
      → lookup ℕ_discrete id (publish matches b event now).subscriptions
        ≡ Option.map (offer matches (stamp event now)) (lookup ℕ_discrete id b.subscriptions)
  unfolding publish
  find-publish b event now id = lookup-offer_all (stamp event now) id b.subscriptions

  key-stamp : (event : Event) (now : ℕ) → (stamp event now).key ≡ event.key
  unfolding stamp
  key-stamp event now = ground arith

  -- After a series of `Publish` calls, a subscriber that is open and does not read finds in its
  -- channel, after what was there, the first events that its pattern admits, in order, as many as
  -- there is room for.
  pub publish_all-admitted :
      (events : List (Event × ℕ)) (b : Broker.Broker) (id : ℕ) (s : Subscription)
      → lookup ℕ_discrete id b.subscriptions ≡ some s
      → s.closed ≡ false
      → lookup ℕ_discrete id (publish_all events b).subscriptions
        ≡ some (record s { ch = s.ch ++ admitted s.pattern (s.buf_size - length s.ch) events })
  unfolding publish_all admitted offer
  publish_all-admitted [] b id s found live = ground (arith, append-nil s.ch)
  publish_all-admitted ((event, now) ∷ rest) b id s found live =
      let b' = publish matches b event now in
      let there = find-publish b event now id in
      let same = key-stamp event now in
      elim (Bool-cases (matches s.pattern event.key)) [
        | inr unwanted ↦ ground (arith, unwanted, there, same, publish_all-admitted rest b' id s)
        | inl wanted ↦ elim (Bool-cases (ltb (length s.ch) s.buf_size)) [
          | inr full ↦ ground (arith, wanted, full, there, same, publish_all-admitted rest b' id s)
          | inl room ↦
              let s' = record s { ch = s.ch ++ stamp event now ∷ [] } in
              ground (
                arith,
                wanted,
                room,
                there,
                same,
                publish_all-admitted rest b' id s',
                length-append s.ch (stamp event now ∷ []),
                append_assoc s.ch (stamp event now ∷ [])
                    (admitted s.pattern (s.buf_size - length s.ch - 1) rest),
              )
        ]
      ]
