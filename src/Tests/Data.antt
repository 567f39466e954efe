-- ===== src/Tests/Data.antt =====
-- Keys and values, and two shards that hold them.
use cache_grid.Base.{
  Bytes, ap, get_or, arith, ◌≢◌, [], ◌∷◌, lookup, ℕ_discrete, Bytes-discrete, true,
}
use cache_grid.Base.Int.{pos, ◌+ℤ◌, ◌-ℤ◌}
use cache_grid.Base.GoMap.{insert, delete}
use cache_grid.Shard.State.{
  Shard, new_shard, remove_locked, evict_oldest, over_limit, evict_loop, evict_locked,
}
use cache_grid.Shard.Entry.{is_expired, remaining_ttl, estimate_size}
use cache_grid.Shard.Lru
use cache_grid.Shard.Ops
use cache_grid.Shard.Ops.{
  expiry, forget_existing, put_front, store_entry, reap, expire_loop, preserved_ttl, write_counter,
}
use cache_grid.Shard.Codec.{add64}
use cache_grid.Shard.Valid.{IsValid, Reach, here, next, Reach-IsValid, set, set_on_evict}

abbrev pub key_a : Bytes
key_a = b'a' ∷ []

abbrev pub key_b : Bytes
key_b = b'b' ∷ []

abbrev pub value_1 : Bytes
value_1 = 1 ∷ []

abbrev pub value_2 : Bytes
value_2 = 2 ∷ 2 ∷ []

-- What a run of a shard unfolds.
unfoldable pub shard_code : Unit {0}
unfolding lookup ℕ_discrete Bytes-discrete insert delete ◌+ℤ◌ ◌-ℤ◌ is_expired remaining_ttl
    estimate_size Lru.new_lru_list Lru.push_front Lru.find_element Lru.unlink Lru.move_to_front
    Lru.remove Lru.split_back Lru.remove_oldest Lru.length new_shard remove_locked evict_oldest
    over_limit evict_loop evict_locked Ops.get Ops.set Ops.delete Ops.exists Ops.ttl Ops.incr
    Ops.delete_expired Ops.len expiry forget_existing put_front store_entry reap expire_loop
    preserved_ttl write_counter add64
shard_code = tt

-- Two entries of 186 and 187 bytes, the second one for 5 ticks.
abbrev pub empty_shard : Shard
empty_shard = record (new_shard (pos 400)) { on_evict = true }

abbrev pub one_item : Shard
one_item = (Ops.set empty_shard key_a value_1 (pos 0) 10).0

abbrev pub two_items : Shard
two_items = (Ops.set one_item key_b value_2 (pos 5) 10).0

pub two_items-Reach : Reach (new_shard (pos 400)) two_items
two_items-Reach =
    next
      (next (next here (set_on_evict (new_shard (pos 400)) true))
        (set empty_shard key_a value_1 (pos 0) 10))
      (set one_item key_b value_2 (pos 5) 10)

pub two_items-IsValid : IsValid two_items
two_items-IsValid = Reach-IsValid (pos 400) two_items-Reach

pub key_a-ne-key_b : key_a ≢ key_b
key_a-ne-key_b h = omega (arith, ap (λ xs. get_or xs 0 0) h)

pub key_b-ne-key_a : key_b ≢ key_a
key_b-ne-key_a h = omega (arith, ap (λ xs. get_or xs 0 0) h)
