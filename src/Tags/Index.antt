-- ===== src/Tags/Index.antt =====
-- `tagIndex` of tags.go. A Go set `map[string]struct{}` is a map with no values.
use cache_grid.Base.{Bytes, Bytes-discrete, List, [], ◌∷◌, map, Option, none, some, lookup}
use cache_grid.Base.GoMap.{insert, delete}

-- A set of keys.
abbrev pub KeySet : Type 0
KeySet = List (Bytes × Unit {0})

pub record TagIndex : Type 0 where
  pub tag_to_keys : List (Bytes × KeySet)
  pub key_to_tags : List (Bytes × List Bytes)

unfoldable pub new_tag_index : TagIndex
new_tag_index = record { tag_to_keys = []; key_to_tags = [] }

-- The set of a tag; a tag that is not in the map has none.
abbrev pub keys_of : TagIndex → Bytes → Option KeySet
keys_of ti tag = lookup Bytes-discrete tag ti.tag_to_keys

-- `delete(keys, key)`, then the tag itself if its set is empty.
unfoldable pub put_or_drop : List (Bytes × KeySet) → Bytes → KeySet → List (Bytes × KeySet)
put_or_drop m tag [] = delete Bytes-discrete tag m
put_or_drop m tag (k ∷ ks) = insert Bytes-discrete tag (k ∷ ks) m

-- The body of the loop over the old tags of a key.
unfoldable pub unlink_tag : Bytes → List (Bytes × KeySet) → Bytes → List (Bytes × KeySet)
unlink_tag key m tag = elim (lookup Bytes-discrete tag m) [
  | none ↦ m
  | some keys ↦ put_or_drop m tag (delete Bytes-discrete key keys)
]

unfoldable pub unlink_tags : Bytes → List (Bytes × KeySet) → List Bytes → List (Bytes × KeySet)
unlink_tags key m [] = m
unlink_tags key m (tag ∷ tags) = unlink_tags key (unlink_tag key m tag) tags

-- The body of the loop over the new tags.
unfoldable pub link_tag : Bytes → List (Bytes × KeySet) → Bytes → List (Bytes × KeySet)
link_tag key m tag = elim (lookup Bytes-discrete tag m) [
  | none ↦ insert Bytes-discrete tag ((key, tt) ∷ []) m
  | some keys ↦ insert Bytes-discrete tag (insert Bytes-discrete key tt keys) m
]

unfoldable pub link_tags : Bytes → List (Bytes × KeySet) → List Bytes → List (Bytes × KeySet)
link_tags key m [] = m
link_tags key m (tag ∷ tags) = link_tags key (link_tag key m tag) tags

-- The old tags of a key.
unfoldable pub old_tags : TagIndex → Bytes → List Bytes
old_tags ti key = elim (lookup Bytes-discrete key ti.key_to_tags) [ none ↦ [] | some tags ↦ tags ]

unfoldable pub add : TagIndex → Bytes → List Bytes → TagIndex
add ti key tags =
    let cleared = unlink_tags key ti.tag_to_keys (old_tags ti key) in
    record {
      tag_to_keys = link_tags key cleared tags;
      key_to_tags = insert Bytes-discrete key tags ti.key_to_tags;
    }

unfoldable pub remove : TagIndex → Bytes → TagIndex
remove ti key = elim (lookup Bytes-discrete key ti.key_to_tags) [
  | none ↦ ti
  | some tags ↦ record {
    tag_to_keys = unlink_tags key ti.tag_to_keys tags;
    key_to_tags = delete Bytes-discrete key ti.key_to_tags;
  }
]

-- The keys in the order of the set, which Go leaves open.
unfoldable pub get_keys_by_tag : TagIndex → Bytes → List Bytes
get_keys_by_tag ti tag = elim (keys_of ti tag) [ none ↦ [] | some keys ↦ map (λ b. b.0) keys ]
