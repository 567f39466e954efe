-- ===== src/Facade/Namespace.antt =====
-- namespace.go: a view of the cache in which keys and tags have a prefix.
use cache_grid.Base.{ℕ, Bytes, List, ◌∷◌, ◌++◌, map, Option, Bool}
use cache_grid.Base.Int.{ℤ}
use cache_grid.Rpc.Client.{Network}
use cache_grid.Facade.Parts.{Store, Marshaller, Value, Dest, Cache, CacheError, Effect}
use cache_grid.Facade.Ops
use cache_grid.Facade.Bulk

unfoldable pub prefix_key : Bytes → Bytes → Bytes
prefix_key namespace key = namespace ++ b':' ∷ key

unfoldable pub prefix_tag : Bytes → Bytes → Bytes
prefix_tag namespace tag = namespace ++ b':' ∷ tag

-- `NamespacedCache` is the cache and the namespace.
module _ (matches : Bytes → Bytes → Bool) {V : Type 0} (m : Marshaller V) {st : Store} {n : Network}
    (namespace : Bytes) where
  unfoldable pub set :
      Cache st n → Bytes → Value V → ℤ → ℕ → Cache st n × Option CacheError × List Effect
  unfolding prefix_key
  set c key value ttl now = Ops.set matches m c (prefix_key namespace key) value ttl now

  unfoldable pub get : Cache st n → Bytes → Dest → ℕ → Cache st n × Option (Value V) × List Effect
  unfolding prefix_key
  get c key dest now = Ops.get matches m c (prefix_key namespace key) dest now

  unfoldable pub delete : Cache st n → Bytes → ℕ → Cache st n × List Effect
  unfolding prefix_key
  delete c key now = Ops.delete matches m c (prefix_key namespace key) now

  unfoldable pub exists : Cache st n → Bytes → ℕ → Cache st n × Bool
  unfolding prefix_key
  exists c key now = Ops.exists matches m c (prefix_key namespace key) now

  unfoldable pub ttl : Cache st n → Bytes → ℕ → Cache st n × ℤ
  unfolding prefix_key
  ttl c key now = Ops.ttl matches m c (prefix_key namespace key) now

  unfoldable pub get_or_set :
      Cache st n
      → Bytes
      → Dest
      → ℤ
      → Option (Value V)
      → ℕ
      → Cache st n × (Option CacheError × Option (Value V)) × List Effect
  unfolding prefix_key
  get_or_set c key dest ttl computed now =
      Ops.get_or_set matches m c (prefix_key namespace key) dest ttl computed now

  unfoldable pub incr :
      Cache st n → Bytes → ℕ → ℕ → Cache st n × (Option CacheError × ℕ) × List Effect
  unfolding prefix_key
  incr c key delta now = Bulk.incr matches m c (prefix_key namespace key) delta now

  unfoldable pub decr :
      Cache st n → Bytes → ℕ → ℕ → Cache st n × (Option CacheError × ℕ) × List Effect
  unfolding prefix_key
  decr c key delta now = Bulk.decr matches m c (prefix_key namespace key) delta now

  unfoldable pub set_with_tags :
      Cache st n
      → Bytes
      → Value V
      → ℤ
      → List Bytes
      → ℕ
      → Cache st n × Option CacheError × List Effect
  unfolding prefix_key prefix_tag
  set_with_tags c key value ttl tags now =
      Bulk.set_with_tags matches m c (prefix_key namespace key) value ttl
        (map (prefix_tag namespace) tags) now

  unfoldable pub invalidate_tag : Cache st n → Bytes → ℕ → Cache st n × List Effect
  unfolding prefix_tag
  invalidate_tag c tag now = Bulk.invalidate_tag matches m c (prefix_tag namespace tag) now
