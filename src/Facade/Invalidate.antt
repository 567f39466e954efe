-- ===== src/Facade/Invalidate.antt =====
-- What `InvalidateTag` and the sweeper leave under the tags.
use cache_grid.Base.{
  ℕ, ◌≡◌, refl, ap, ◌∙◌, Bytes, List, [], ◌∷◌, map, Bool, false, if◌then◌else◌, All, arith,
}
use cache_grid.Facade.Bulk.{delete_each, invalidate_tag}
use cache_grid.Facade.Lifecycle.{expired, sweep}
use cache_grid.Facade.Ops
use cache_grid.Facade.Ops.{is_empty}
use cache_grid.Facade.Parts.{Store, Marshaller, Cache}
use cache_grid.Facade.Routing.{distributed_delete, send_delete}
use cache_grid.Rpc.Client.{Network}
use cache_grid.Shard.State.{Fired}
use cache_grid.Tags.Index.{TagIndex, get_keys_by_tag}
use cache_grid.Tags.Index
use cache_grid.Tags.Linked.{contains}
use cache_grid.Tags.Lookup.{IsLinked}
use cache_grid.Tags.Purge.{remove_all, contains-remove_all}

module _ (matches : Bytes → Bytes → Bool) {V : Type 0} (m : Marshaller V) {st : Store}
    {n : Network} where
  distributed_delete_same :
      (c : Cache st n) (key : Bytes)
      → ((distributed_delete matches c key).0.tags ≡ c.tags)
        × ((distributed_delete matches c key).0.closed ≡ c.closed)
  unfolding distributed_delete send_delete
  distributed_delete_same c key = ground arith

  delete_open :
      (c : Cache st n) (key : Bytes) (now : ℕ)
      → is_empty key ≡ false
      → c.closed ≡ false
      → ((Ops.delete matches m c key now).0.tags ≡ Index.remove c.tags key)
        × ((Ops.delete matches m c key now).0.closed ≡ false)
  unfolding Ops.delete
  delete_open c key now named open_cache =
      let (tags, closed) = distributed_delete_same c key in
      ground (arith, tags, closed, named, open_cache)

  delete_each_tags :
      (keys : List Bytes) (c : Cache st n) (now : ℕ)
      → All (λ key. is_empty key ≡ false) keys
      → c.closed ≡ false
      → (delete_each matches m c keys now).0.tags ≡ remove_all c.tags keys
  unfolding delete_each remove_all
  delete_each_tags [] c now named open_cache = refl
  delete_each_tags (key ∷ keys) c now (here, named) open_cache =
      let (tags, still) = delete_open c key now here open_cache in
      delete_each_tags keys (Ops.delete matches m c key now).0 now named still
      ∙ ap (λ ti. remove_all ti keys) tags

  -- On an open cache whose tag index is linked and has no empty key under the tag: `InvalidateTag`
  -- takes the keys of the tag from every tag, so that none is left under the tag itself, and leaves
  -- all other keys under their tags.
  pub contains-invalidate_tag :
      (c : Cache st n) (tag : Bytes) (now : ℕ) (t k : Bytes)
      → c.closed ≡ false
      → IsLinked c.tags
      → All (λ key. is_empty key ≡ false) (get_keys_by_tag c.tags tag)
      → contains k (get_keys_by_tag (invalidate_tag matches m c tag now).0.tags t) ≡ (
          if contains k (get_keys_by_tag c.tags tag)
          then false
          else contains k (get_keys_by_tag c.tags t))
  unfolding invalidate_tag
  contains-invalidate_tag c tag now t k open_cache linked named =
      let keys = get_keys_by_tag c.tags tag in
      ap (λ ti. contains k (get_keys_by_tag ti t)) (delete_each_tags keys c now named open_cache)
      ∙ contains-remove_all keys c.tags t k linked

module _ (matches : Bytes → Bytes → Bool) {st : Store} {n : Network} where
  expired_tags :
      (fired : List Fired) (c : Cache st n) (now : ℕ)
      → (expired matches c fired now).tags ≡ remove_all c.tags (map (λ f. f.0) fired)
  unfolding expired remove_all
  expired_tags [] c now = refl
  expired_tags ((key, value) ∷ fired) c now = expired_tags fired _ now

  -- A tick of the sweeper takes exactly the keys that the store reports as expired from their tags.
  pub contains-sweep :
      (c : Cache st n) (now : ℕ) (t k : Bytes)
      → IsLinked c.tags
      → let (c', fired) = sweep matches c now in
        contains k (get_keys_by_tag c'.tags t) ≡ (
          if contains k (map (λ f. f.0) fired)
          then false
          else contains k (get_keys_by_tag c.tags t))
  unfolding sweep
  contains-sweep c now t k linked =
      let fired = (st.delete_expired c.store now).2 in
      ap (λ ti. contains k (get_keys_by_tag ti t)) (expired_tags fired _ now)
      ∙ contains-remove_all (map (λ f. f.0) fired) c.tags t k linked
