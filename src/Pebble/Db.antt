-- ===== src/Pebble/Db.antt =====
-- Pebble's database, which is not part of the repository, as store_pebble.go uses it.
use cache_grid.Base.{ℕ, suc, ◌≡◌, Bytes, Bytes-discrete, List, Option, Bool, true, ite, some, none}

-- `get` is none on an error, which is also the answer for a missing key. A write answers with
-- whether it succeeded. `entries` are what a new iterator walks, none where it cannot be made;
-- `delete_all` commits a batch of deletions, whose errors the store ignores.
pub record Db : Type 1 where
  pub D : Type 0
  pub get : D → Bytes → Option Bytes
  pub set : D → Bytes → Bytes → D × Bool
  pub delete : D → Bytes → D × Bool
  pub delete_all : D → List Bytes → D
  pub entries : D → Option (List (Bytes × Bytes))

-- A write that succeeds is read back, and leaves the other keys.
pub record IsFaithful (p : Db) : Type 0 where
  pub read_set :
      (d : p.D) (k v j : Bytes)
      → (p.set d k v).1 ≡ true
      → p.get (p.set d k v).0 j ≡ ite (Bytes-discrete k j) (some v) (p.get d j)
  pub read_delete :
      (d : p.D) (k j : Bytes)
      → (p.delete d k).1 ≡ true
      → p.get (p.delete d k).0 j ≡ ite (Bytes-discrete k j) none (p.get d j)

-- Where the iterator and the writes succeed, the database is a map of keys to values.
pub record IsMap (p : Db) (size : p.D → ℕ) : Type 0 where
  pub size_set :
      (d : p.D) (k v : Bytes)
      → (p.set d k v).1 ≡ true
      → size (p.set d k v).0 ≡ (elim (p.get d k) [ none ↦ suc (size d) | some _ ↦ size d ])
  pub size_delete :
      (d : p.D) (k v : Bytes)
      → (p.delete d k).1 ≡ true
      → p.get d k ≡ some v
      → suc (size (p.delete d k).0) ≡ size d
