-- ===== src/Facade/Hooks.antt =====
-- pubsub.go: subscriptions and callbacks of the cache. A callback goes by its number, and one that
-- takes any value is called with the bytes.
use cache_grid.Base.{ℕ, Bytes, none, some, lookup, ℕ_discrete}
use cache_grid.Base.GoMap.{insert}
use cache_grid.Facade.Parts.{Store, Cache}
use cache_grid.Pubsub.Broker.{Broker, Subscription, subscribe, close}
use cache_grid.Pubsub.Broker as Events
use cache_grid.Rpc.Client.{Network}

-- `Close` of a subscription, which the map of the broker holds too.
unfoldable pub close_subscription : Broker → ℕ → Broker
close_subscription b id = elim (lookup ℕ_discrete id b.subscriptions) [
  | none ↦ b
  | some sub ↦ record b { subscriptions = insert ℕ_discrete id (close sub) b.subscriptions }
]

module _ {st : Store} {n : Network} where
  unfoldable pub subscribe_cache : Cache st n → Bytes → Cache st n × Subscription
  subscribe_cache c pattern =
      let (b, sub) = subscribe c.broker pattern in (record c { broker = b }, sub)

  unfoldable pub close_cache_subscription : Cache st n → Subscription → Cache st n
  unfolding close_subscription
  close_cache_subscription c sub = record c { broker = close_subscription c.broker sub.id }

  unfoldable pub on_hit : Cache st n → ℕ → Cache st n
  on_hit c fn = record c { broker = Events.add_on_hit c.broker fn }

  unfoldable pub on_miss : Cache st n → ℕ → Cache st n
  on_miss c fn = record c { broker = Events.add_on_miss c.broker fn }

  unfoldable pub on_evict : Cache st n → ℕ → Cache st n
  on_evict c fn = record c { broker = Events.add_on_evict c.broker fn }

  unfoldable pub on_set : Cache st n → ℕ → Cache st n
  on_set c fn = record c { broker = Events.add_on_set c.broker fn }

  unfoldable pub on_delete : Cache st n → ℕ → Cache st n
  on_delete c fn = record c { broker = Events.add_on_delete c.broker fn }
