-- ===== src/Base/GoMap.antt =====
-- Go's map over keys with a decidable equality. The list is one order of iteration: Go leaves the
-- order open, and what is proved of a loop over a map holds for every list.
use Prim.Native.Nat.{◌+◌}
use mathlib.Core.Path.{◌≡◌, refl}
use mathlib.Core.List.{List, [], ◌∷◌, lookup}
use mathlib.Core.Logic.{◌≢◌, ite}
use mathlib.Core.Option.{none, some}
use native.Mathlib.Omega.{arith}
use cache_grid.Base.Lists.{length, All, All-map}

module _ {ℓ} {K V : Type ℓ} (dec : Discrete K) where
  -- delete(m, k)
  unfoldable pub delete : K → List (K × V) → List (K × V)
  delete k [] = []
  delete k ((j, v) ∷ m) = let rest = delete k m in ite (dec k j) rest ((j, v) ∷ rest)

  -- m[k] = v
  unfoldable pub insert : K → V → List (K × V) → List (K × V)
  insert k v m = (k, v) ∷ delete k m

  -- No key has two bindings.
  abbrev pub Unique : List (K × V) → Type ℓ
  Unique [] = Unit
  Unique ((k, v) ∷ m) = (lookup dec k m ≡ none) × Unique m

  pub lookup-delete :
      (k j : K) (m : List (K × V)) → lookup dec j (delete k m) ≡ ite (dec k j) none (lookup dec j m)
  unfolding delete lookup
  lookup-delete k j [] = ground arith
  lookup-delete k j ((i, v) ∷ m) = ground (arith, lookup-delete k j m)

  pub lookup-delete_self : (k : K) (m : List (K × V)) → lookup dec k (delete k m) ≡ none
  lookup-delete_self k m = ground (arith, lookup-delete k k m)

  pub lookup-delete_ne :
      (k j : K) (m : List (K × V)) → k ≢ j → lookup dec j (delete k m) ≡ lookup dec j m
  lookup-delete_ne k j m h = ground (arith, lookup-delete k j m)

  pub lookup-insert :
      (k j : K) (v : V) (m : List (K × V))
      → lookup dec j (insert k v m) ≡ ite (dec k j) (some v) (lookup dec j m)
  unfolding insert lookup
  lookup-insert k j v m = ground (arith, lookup-delete k j m)

  pub lookup-insert_self : (k : K) (v : V) (m : List (K × V)) → lookup dec k (insert k v m) ≡ some v
  lookup-insert_self k v m = ground (arith, lookup-insert k k v m)

  pub lookup-insert_ne :
      (k j : K) (v : V) (m : List (K × V)) → k ≢ j → lookup dec j (insert k v m) ≡ lookup dec j m
  lookup-insert_ne k j v m h = ground (arith, lookup-insert k j v m)

  pub delete_absent : (k : K) (m : List (K × V)) → lookup dec k m ≡ none → delete k m ≡ m
  unfolding delete lookup
  delete_absent k [] h = refl
  delete_absent k ((j, v) ∷ m) h = ground (arith, delete_absent k m)

  pub delete-Unique : (k : K) (m : List (K × V)) → Unique m → Unique (delete k m)
  unfolding delete
  delete-Unique k [] u = tt
  delete-Unique k ((j, v) ∷ m) u = ground (arith, delete-Unique k m u.1, lookup-delete k j m)

  pub insert-Unique : (k : K) (v : V) (m : List (K × V)) → Unique m → Unique (insert k v m)
  unfolding insert
  insert-Unique k v m u = (lookup-delete_self k m, delete-Unique k m u)

  -- len(m) after a delete of a key that is there.
  pub length-delete :
      (k : K) (m : List (K × V)) (v : V)
      → Unique m
      → lookup dec k m ≡ some v
      → length (delete k m) + 1 ≡ length m
  unfolding delete lookup
  length-delete k [] v u h = cc
  length-delete k ((j, w) ∷ m) v u h = ground (arith, length-delete k m v u.1, delete_absent k m)

  lookup-cons :
      (k : K) (v : V) (m : List (K × V)) (b : K × V)
      → lookup dec k m ≡ none
      → lookup dec b.0 m ≡ some b.1
      → lookup dec b.0 ((k, v) ∷ m) ≡ some b.1
  unfolding lookup
  lookup-cons k v m b absent h = ground arith

  -- A loop over the map meets each binding that the map holds.
  pub lookup-All : (m : List (K × V)) → Unique m → All (λ b. lookup dec b.0 m ≡ some b.1) m
  unfolding lookup
  lookup-All [] u = tt
  lookup-All ((k, v) ∷ m) u =
      (ground arith, All-map m (λ b h. lookup-cons k v m b u.0 h) (lookup-All m u.1))
