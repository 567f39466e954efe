-- ===== src/Tests/Pebbles.antt =====
-- store_pebble.go over a database that is an association list.
use cache_grid.Base.{
  ℕ, suc, ◌≡◌, refl, ap, Bytes, Bytes-discrete, ℕ_discrete, List, [], ◌∷◌, none, some, true, lookup,
  length, arith, Option-cases, inl, inr,
}
use cache_grid.Base.Int.{pos, ◌-ℤ◌, ◌+ℤ◌}
use cache_grid.Base.GoMap
use cache_grid.Base.GoMap.{
  lookup-insert, lookup-delete, Unique, delete-Unique, insert-Unique, length-delete, delete_absent,
}
use cache_grid.Pebble.Db
use cache_grid.Pebble.Db.{Db, IsMap}
use cache_grid.Pebble.Format.{
  encode, decode, is_expired, is_negative, put_big_endian, read_big_endian, expires_at_nano,
}
use cache_grid.Pebble.State
use cache_grid.Pebble.State.{
  PebbleStore, new_pebble_store, count_keys, write, write_counter, drop_expired,
}
use cache_grid.Pebble.Laws.{get-set_on_disk, incr_drifts}
use cache_grid.Shard.Codec.{add64}
use cache_grid.Tests.Counters.{digits}
use cache_grid.Tests.Data.{key_a, key_b, value_1, key_a-ne-key_b}

unfoldable disk_code : Unit {0}
unfolding lookup ℕ_discrete Bytes-discrete GoMap.insert GoMap.delete ◌-ℤ◌ ◌+ℤ◌ encode decode
    is_expired is_negative put_big_endian read_big_endian expires_at_nano new_pebble_store
    count_keys write write_counter drop_expired add64 State.get State.set State.delete State.incr
disk_code = tt

delete_keys : List (Bytes × Bytes) → List Bytes → List (Bytes × Bytes)
delete_keys d [] = d
delete_keys d (k ∷ ks) = delete_keys (GoMap.delete Bytes-discrete k d) ks

delete_keys-Unique :
    (d : List (Bytes × Bytes)) (ks : List Bytes)
    → Unique Bytes-discrete d
    → Unique Bytes-discrete (delete_keys d ks)
unfolding delete_keys
delete_keys-Unique d [] u = u
delete_keys-Unique d (k ∷ ks) u =
    delete_keys-Unique (GoMap.delete Bytes-discrete k d) ks (delete-Unique Bytes-discrete k d u)

-- The bindings in a list without double keys, and every write succeeds.
abbrev listed : Db
listed = record {
  D = (d : List (Bytes × Bytes)) × Unique Bytes-discrete d;
  get = λ d k. lookup Bytes-discrete k d.0;
  set = λ d k v.
      ((GoMap.insert Bytes-discrete k v d.0, insert-Unique Bytes-discrete k v d.0 d.1), true);
  delete =
      λ d k. ((GoMap.delete Bytes-discrete k d.0, delete-Unique Bytes-discrete k d.0 d.1), true);
  delete_all = λ d ks. (delete_keys d.0 ks, delete_keys-Unique d.0 ks d.1);
  entries = λ d. some d.0;
}

listed-IsFaithful : Db.IsFaithful listed
listed-IsFaithful = record {
  read_set = λ d k v j ok. lookup-insert Bytes-discrete k j v d.0;
  read_delete = λ d k j ok. lookup-delete Bytes-discrete k j d.0;
}

abbrev size : listed.D → ℕ
size d = length d.0

grow :
    (d : listed.D) (k v : Bytes)
    → lookup Bytes-discrete k d.0 ≡ none
    → size (listed.set d k v).0 ≡ suc (size d)
unfolding GoMap.insert
grow d k v e = ap (λ l. suc (length l)) (delete_absent Bytes-discrete k d.0 e)

stay :
    (d : listed.D) (k v x : Bytes)
    → lookup Bytes-discrete k d.0 ≡ some x
    → size (listed.set d k v).0 ≡ size d
unfolding GoMap.insert
stay d k v x e = omega (arith, length-delete Bytes-discrete k d.0 x d.1 e)

listed-IsMap : IsMap listed size
listed-IsMap = record {
  size_set = size_set;
  size_delete = λ d k v ok found. omega (arith, length-delete Bytes-discrete k d.0 v d.1 found);
}
  where
    size_set :
        (d : listed.D) (k v : Bytes)
        → (listed.set d k v).1 ≡ true
        → size (listed.set d k v).0
          ≡ (elim (listed.get d k) [ none ↦ suc (size d) | some _ ↦ size d ])
    size_set d k v ok = elim (Option-cases (lookup Bytes-discrete k d.0)) [
      | inl e ↦ rw e (grow d k v e)
      | inr (x, e) ↦ rw e (stay d k v x e)
    ]

abbrev empty_disk : PebbleStore listed
empty_disk = new_pebble_store listed ([], tt)

disk_run :
    (encode value_1 (pos 250) 10 ≡ 0 ∷ 0 ∷ 0 ∷ 0 ∷ 0 ∷ 0 ∷ 1 ∷ 4 ∷ 1 ∷ [])
    × ((State.get listed (State.set listed empty_disk key_a value_1 (pos 5) 10) key_a 16).1 ≡ none)
unfolding disk_code
disk_run = (refl, refl)

get-set_on_disk_example :
    ((State.get listed (State.set listed empty_disk key_a value_1 (pos 5) 10) key_a 15).1
      ≡ some value_1)
    × ((State.get listed (State.set listed empty_disk key_a value_1 (pos 5) 10) key_b 15).1
        ≡ (State.get listed empty_disk key_b 15).1)
unfolding disk_code
get-set_on_disk_example =
    get-set_on_disk listed listed-IsFaithful empty_disk key_a value_1 (pos 5) 10 15 key_b refl
      (omega arith) (λ h. omega arith) key_a-ne-key_b

-- A counter that expired at 15.
abbrev with_counter : PebbleStore listed
with_counter = State.set listed empty_disk key_a (41 ∷ []) (pos 5) 10

incr_drifts_example :
    let s' = (State.incr listed digits with_counter key_a 2 (pos 0) 16 16 16).0 in
    (s'.count ≡ pos (size s'.db) -ℤ pos 1) × (size s'.db ≡ size with_counter.db)
unfolding disk_code
incr_drifts_example =
    incr_drifts listed size listed-IsMap with_counter key_a digits 2 (pos 0) 16 16 16
      (encode (41 ∷ []) (pos 5) 10) 2 refl refl refl refl
