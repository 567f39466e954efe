-- ===== src/Tags/Purge.antt =====
-- A series of removals from the tag index.
use cache_grid.Base.{◌≡◌, refl, ◌∙◌, Bytes, List, [], ◌∷◌, false, if◌then◌else◌, arith}
use cache_grid.Tags.Index.{TagIndex, remove, get_keys_by_tag}
use cache_grid.Tags.Linked.{tagged, contains}
use cache_grid.Tags.Lookup.{IsLinked, remove-IsLinked, remove_cases, contains-get_keys}

unfoldable pub remove_all : TagIndex → List Bytes → TagIndex
remove_all ti [] = ti
remove_all ti (key ∷ keys) = remove_all (remove ti key) keys

tagged-remove_all :
    (keys : List Bytes) (ti : TagIndex) (t k : Bytes)
    → IsLinked ti
    → tagged (remove_all ti keys).tag_to_keys t k
      ≡ (if contains k keys then false else tagged ti.tag_to_keys t k)
unfolding remove_all contains
tagged-remove_all [] ti t k v = refl
tagged-remove_all (key ∷ keys) ti t k v = ground (
  arith,
  tagged-remove_all keys (remove ti key) t k (remove-IsLinked ti key v),
  (remove_cases ti key t k v).0,
)

-- The keys that are left under a tag.
pub contains-remove_all :
    (keys : List Bytes) (ti : TagIndex) (t k : Bytes)
    → IsLinked ti
    → contains k (get_keys_by_tag (remove_all ti keys) t)
      ≡ (if contains k keys then false else contains k (get_keys_by_tag ti t))
contains-remove_all keys ti t k v =
    contains-get_keys (remove_all ti keys) t k
    ∙ tagged-remove_all keys ti t k v
    ∙ rw (contains-get_keys ti t k) refl
