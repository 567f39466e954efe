-- ===== src/Tests/Shards.antt =====
-- Runs of internal/cache/shard.go, and its theorems at concrete inputs.
use cache_grid.Base.{
  ◌≡◌, ◌+◌, refl, Bytes, [], ◌∷◌, none, some, true, false, arith, length, if◌then◌else◌, replicate,
}
use cache_grid.Base.Int.{pos, negsuc}
use cache_grid.Shard.Ops
use cache_grid.Shard.Ops.{find, expiry}
use cache_grid.Shard.State.{Shard, evict_loop}
use cache_grid.Shard.Spec.{cells, use_cell, store_cell}
use cache_grid.Shard.Consistent.{IsConsistent}
use cache_grid.Shard.Evict.{fit, evict_loop-fit}
use cache_grid.Shard.Refine.{get-use_cell, set-store_cell}
use cache_grid.Shard.Sweep.{unexpired, swept, delete_expired_lem}
use cache_grid.Shard.Valid.{IsValid, Reach-IsValid}
use cache_grid.Tests.Data.{
  key_a, key_b, value_1, value_2, shard_code, two_items, two_items-Reach, two_items-IsValid,
}

-- A hit, a miss after the lifetime, and the remaining lifetimes.
get_run :
    ((Ops.get two_items key_a 11).1 ≡ some value_1)
    × ((Ops.get two_items key_b 15).1 ≡ some value_2)
    × ((Ops.get two_items key_b 16).1 ≡ none)
    × ((Ops.ttl two_items two_items key_a 11 11).1 ≡ negsuc 0)
    × ((Ops.ttl two_items two_items key_b 11 12).1 ≡ pos 3)
unfolding shard_code
get_run = (refl, refl, refl, refl, refl)

-- A third entry of 185 bytes evicts the least recently used one.
evict_run :
    (Ops.set (Ops.get two_items key_a 11).0 (b'c' ∷ []) [] (pos 0) 12).1 ≡ (key_b, value_2) ∷ []
unfolding shard_code
evict_run = refl

-- `Exists` at 16 removes the expired entry in its second section.
exists_run :
    ((Ops.exists two_items two_items key_b 15 15).1 ≡ true)
    × ((Ops.exists two_items two_items key_b 16 16).1 ≡ false)
    × (Ops.len (Ops.exists two_items two_items key_b 16 16).0 ≡ 1)
unfolding shard_code
exists_run = (refl, refl, refl)

two_items_limit : (two_items.max_size ≡ pos 400)
unfolding shard_code
two_items_limit = refl

Reach-IsValid_example : IsValid two_items
Reach-IsValid_example = Reach-IsValid (pos 400) two_items-Reach

get-use_cell_example :
    (cells (Ops.get two_items key_a 11).0 ≡ (use_cell (cells two_items) key_a 11).0)
    × ((Ops.get two_items key_a 11).1 ≡ (use_cell (cells two_items) key_a 11).1)
get-use_cell_example = get-use_cell two_items key_a 11 two_items-IsValid.consistent

set-store_cell_example :
    cells (Ops.set two_items key_a value_2 (pos 7) 12).0
    ≡ store_cell two_items.max_size
        (cells two_items)
        (record { key = key_a; value = value_2; expires_at = expiry (pos 7) 12 })
set-store_cell_example =
    set-store_cell two_items key_a value_2 (pos 7) 12 two_items-IsValid.consistent

delete_expired_lem_example :
    (find (Ops.delete_expired two_items 16).0 key_b ≡ unexpired 16 (find two_items key_b))
    × ((Ops.delete_expired two_items 16).1 ≡ length (swept 16 two_items.items))
    × ((Ops.delete_expired two_items 16).1 + Ops.len (Ops.delete_expired two_items 16).0
        ≡ Ops.len two_items)
    × ((Ops.delete_expired two_items 16).2
        ≡ (if two_items.on_expire then swept 16 two_items.items else []))
delete_expired_lem_example = delete_expired_lem two_items 16 key_b two_items-IsValid.consistent

abbrev large_value : Bytes
large_value = replicate 300 0

-- The same shard under a limit that only one of its entries fits.
abbrev tight : Shard
tight = record two_items { max_size = pos 190 }

tight-IsConsistent : IsConsistent tight
tight-IsConsistent =
    let v = two_items-IsValid.consistent in
    record {
      linked = v.linked;
      distinct = v.distinct;
      fresh = v.fresh;
      measured = v.measured;
      counted = v.counted;
      unique = v.unique;
      same_length = v.same_length;
    }

evict_loop-fit_example : (evict_loop 2 tight).0.lru.elems ≡ fit 190 tight.lru.elems
unfolding shard_code
evict_loop-fit_example = evict_loop-fit 2 tight tight-IsConsistent refl (omega arith)
