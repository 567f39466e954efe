-- ===== src/Tests/Lifecycles.antt =====
-- A cache that has tags, is swept and is shut down.
use cache_grid.Base.{◌≡◌, refl, Bytes-discrete, [], ◌∷◌, none, some, true, false, lookup}
use cache_grid.Base.GoMap.{insert, delete}
use cache_grid.Base.Int.{pos}
use cache_grid.Facade.Backend.{memory}
use cache_grid.Facade.Bulk.{incr, decr, mget, mset, set_with_tags, invalidate_tag}
use cache_grid.Facade.Closed.{shutdown_refuses}
use cache_grid.Facade.Invalidate.{contains-invalidate_tag}
use cache_grid.Facade.Lifecycle.{shutdown}
use cache_grid.Facade.Locks.{refused, lock, try_lock}
use cache_grid.Facade.Ops
use cache_grid.Facade.Ops.{is_empty}
use cache_grid.Facade.Parts.{bytes, bytes_dest, Cache, err_shutdown}
use cache_grid.Lock.Engine.{new_engine}
use cache_grid.Lock.Engine
use cache_grid.Pubsub.Broker.{new_broker}
use cache_grid.Pubsub.Broker
use cache_grid.Rpc.Client.{new_tcp_transport, stop}
use cache_grid.Tags.Index.{
  get_keys_by_tag, new_tag_index, put_or_drop, link_tag, link_tags, unlink_tags, old_tags,
}
use cache_grid.Tags.Index
use cache_grid.Tags.Linked.{contains}
use cache_grid.Tags.Lookup.{IsLinked, new_tag_index-IsLinked, add-IsLinked}
use cache_grid.Tests.Counters.{digits}
use cache_grid.Tests.Data.{key_a, key_b, value_2}
use cache_grid.Tests.Facades.{numbers, no_match, nobody, alone}
use cache_grid.Tests.Locks.{token_1}

-- Both keys have the tag `b`.
abbrev tagged : Cache (memory digits) nobody
tagged = record alone {
  tags = Index.add (Index.add alone.tags key_a (key_b ∷ [])) key_b (key_b ∷ key_a ∷ []);
}

tagged-IsLinked : IsLinked tagged.tags
tagged-IsLinked =
    add-IsLinked (Index.add alone.tags key_a (key_b ∷ [])) key_b (key_b ∷ key_a ∷ [])
      (add-IsLinked alone.tags key_a (key_b ∷ []) new_tag_index-IsLinked)

contains-invalidate_tag_example :
    contains key_b (get_keys_by_tag (invalidate_tag no_match numbers tagged key_b 12).0.tags key_a)
    ≡ false
unfolding lookup Bytes-discrete insert delete new_tag_index put_or_drop link_tag link_tags
    unlink_tags old_tags Index.add get_keys_by_tag is_empty contains
contains-invalidate_tag_example =
    contains-invalidate_tag no_match numbers tagged key_b 12 key_a key_b refl tagged-IsLinked
      (refl, (refl, tt))

abbrev down : Cache (memory digits) nobody
down = record alone { closed = true; lock_engine = record new_engine { done = true } }

shutdown_run : shutdown alone ≡ some (down, [])
unfolding shutdown Engine.shutdown Broker.shutdown new_engine new_broker new_tcp_transport stop
shutdown_run = refl

shutdown_refuses_example :
    (Ops.set no_match numbers down key_a (bytes value_2) (pos 7) 12 ≡ (down, some err_shutdown, []))
    × (mset no_match numbers down [] 12 ≡ (down, some err_shutdown, []))
    × (set_with_tags no_match numbers down key_a (bytes value_2) (pos 7) (key_b ∷ []) 12
        ≡ (down, some err_shutdown, []))
    × (Ops.get_or_set no_match numbers down key_a bytes_dest (pos 7) (some (bytes value_2)) 12
        ≡ (down, (some err_shutdown, none), []))
    × (incr no_match numbers down key_a 3 12 ≡ (down, (some err_shutdown, 0), []))
    × (decr no_match numbers down key_a 3 12 ≡ (down, (some err_shutdown, 0), []))
    × (lock (λ i. token_1) (λ i. 12) (λ i c. c) down key_a (pos 7) (pos 1)
        ≡ (down, refused err_shutdown))
    × (try_lock down key_a (pos 7) token_1 12 ≡ (down, none))
    × (Ops.get no_match numbers down key_a bytes_dest 12 ≡ (down, none, []))
    × (mget no_match numbers down (key_a ∷ []) 12 ≡ (down, [], []))
    × (Ops.exists no_match numbers down key_a 12 ≡ (down, false))
    × (Ops.ttl no_match numbers down key_a 12 ≡ (down, pos 0))
    × (Ops.delete no_match numbers down key_a 12 ≡ (down, []))
    × (invalidate_tag no_match numbers down key_b 12 ≡ (down, []))
unfolding is_empty
shutdown_refuses_example =
    shutdown_refuses no_match numbers alone down [] key_a (bytes value_2) bytes_dest
      (some (bytes value_2)) key_b token_1 (pos 7) (pos 1) (key_b ∷ []) (key_a ∷ []) [] 3 12
      (λ i. token_1) (λ i. 12) (λ i c. c) shutdown_run refl
