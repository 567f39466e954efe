-- ===== src/Pubsub/Broker.antt =====
-- `Event`, `Subscription` and `Broker` of internal/pubsub. A channel is the list of the events that
-- wait in it, oldest first; a subscriber's end of it is not part of the broker. A hook is a number
-- that names the function, and firing answers with the calls that are made, in order. What
-- `path.Match` answers on a pattern and a key, with false for an error, is a parameter.
use cache_grid.Base.{
  ℕ, ◌+◌, ◌%◌, ◌^◌, Bytes, List, [], ◌∷◌, ◌++◌, map, Option, none, some, Bool, true, false, ltb,
  if◌then◌else◌, lookup, length, ℕ_discrete,
}
use cache_grid.Base.GoMap.{insert, delete}

pub data EventType : Type 0 where
  event_set : EventType
  event_delete : EventType
  event_expire : EventType
  event_evict : EventType

pub record Event : Type 0 where
  pub type : EventType
  pub key : Bytes
  pub value : Bytes
  pub timestamp : Option ℕ
  pub node_name : Bytes

pub record Subscription : Type 0 where
  pub id : ℕ
  pub pattern : Bytes
  pub ch : List Event
  pub buf_size : ℕ
  pub closed : Bool

abbrev pub default_buf_size : ℕ
default_buf_size = 256

unfoldable pub new_subscription : ℕ → Bytes → ℕ → Subscription
new_subscription id pattern buf_size = record {
  id = id;
  pattern = pattern;
  ch = [];
  buf_size = buf_size;
  closed = false;
}

-- Closing again does nothing. The events in the channel can still be received.
unfoldable pub close : Subscription → Subscription
close s = if s.closed then s else record s { closed = true }

pub record Broker : Type 0 where
  pub subscriptions : List (ℕ × Subscription)
  pub next_id : ℕ
  pub on_hit : List ℕ
  pub on_miss : List ℕ
  pub on_evict : List ℕ
  pub on_set : List ℕ
  pub on_delete : List ℕ

unfoldable pub new_broker : Broker
new_broker = record {
  subscriptions = [];
  next_id = 0;
  on_hit = [];
  on_miss = [];
  on_evict = [];
  on_set = [];
  on_delete = [];
}

unfoldable pub subscribe : Broker → Bytes → Broker × Subscription
subscribe b pattern =
    let id = (b.next_id + 1) % 2 ^ 64 in
    let sub = new_subscription id pattern default_buf_size in
    (record b { subscriptions = insert ℕ_discrete id sub b.subscriptions; next_id = id }, sub)

-- The subscription that was closed is the caller's too.
unfoldable pub unsubscribe : Broker → ℕ → Broker × Option Subscription
unsubscribe b id = elim (lookup ℕ_discrete id b.subscriptions) [
  | none ↦ (b, none)
  | some sub ↦ (record b { subscriptions = delete ℕ_discrete id b.subscriptions }, some (close sub))
]

-- An event with no timestamp gets the time that `Publish` reads.
unfoldable pub stamp : Event → ℕ → Event
stamp event now = elim event.timestamp [
  | none ↦ record event { timestamp = some now }
  | some _ ↦ event
]

module _ (matches : Bytes → Bytes → Bool) where
  -- The body of the loop of `Publish`.
  unfoldable pub offer : Event → Subscription → Subscription
  offer event s =
      if s.closed
      then s
      else if matches s.pattern event.key
      then (if ltb (length s.ch) s.buf_size then record s { ch = s.ch ++ event ∷ [] } else s)
      else s

  unfoldable pub offer_all : Event → List (ℕ × Subscription) → List (ℕ × Subscription)
  offer_all event [] = []
  offer_all event ((id, s) ∷ rest) = (id, offer event s) ∷ offer_all event rest

  unfoldable pub publish : Broker → Event → ℕ → Broker
  publish b event now = record b { subscriptions = offer_all (stamp event now) b.subscriptions }

unfoldable pub add_on_hit : Broker → ℕ → Broker
add_on_hit b fn = record b { on_hit = b.on_hit ++ fn ∷ [] }

unfoldable pub add_on_miss : Broker → ℕ → Broker
add_on_miss b fn = record b { on_miss = b.on_miss ++ fn ∷ [] }

unfoldable pub add_on_evict : Broker → ℕ → Broker
add_on_evict b fn = record b { on_evict = b.on_evict ++ fn ∷ [] }

unfoldable pub add_on_set : Broker → ℕ → Broker
add_on_set b fn = record b { on_set = b.on_set ++ fn ∷ [] }

unfoldable pub add_on_delete : Broker → ℕ → Broker
add_on_delete b fn = record b { on_delete = b.on_delete ++ fn ∷ [] }

unfoldable pub fire_hit : Broker → Bytes → List (ℕ × Bytes)
fire_hit b key = map (λ fn. (fn, key)) b.on_hit

unfoldable pub fire_miss : Broker → Bytes → List (ℕ × Bytes)
fire_miss b key = map (λ fn. (fn, key)) b.on_miss

unfoldable pub fire_evict : Broker → Bytes → Bytes → List (ℕ × (Bytes × Bytes))
fire_evict b key value = map (λ fn. (fn, (key, value))) b.on_evict

unfoldable pub fire_set : Broker → Bytes → Bytes → List (ℕ × (Bytes × Bytes))
fire_set b key value = map (λ fn. (fn, (key, value))) b.on_set

unfoldable pub fire_delete : Broker → Bytes → List (ℕ × Bytes)
fire_delete b key = map (λ fn. (fn, key)) b.on_delete

-- The subscriptions that were closed are the callers' too.
unfoldable pub shutdown : Broker → Broker × List Subscription
shutdown b = (record b { subscriptions = [] }, map (λ e. close e.1) b.subscriptions)
