-- ===== src/Tags/Lookup.antt =====
-- What tags.go finds under a tag after any history of calls.
use cache_grid.Base.{
  ◌≡◌, refl, ◌∙◌, Bytes, Bytes-discrete, List, [], ◌∷◌, map, none, some, true, false, ite, lookup,
  arith, Option-cases, inl, inr,
}
use cache_grid.Base.GoMap.{lookup-insert, lookup-delete}
use cache_grid.Tags.Index.{
  KeySet, TagIndex, new_tag_index, keys_of, unlink_tags, old_tags, add, remove, get_keys_by_tag,
}
use cache_grid.Tags.Linked.{
  tagged, contains, tagged-unlink_tags, tagged-link_tags, IsClean, unlink_tags-IsClean,
  link_tags-IsClean,
}

pub record IsLinked (ti : TagIndex) : Type 0 where
  pub agree : (t k : Bytes) → tagged ti.tag_to_keys t k ≡ contains t (old_tags ti k)
  pub clean : IsClean ti.tag_to_keys

pub new_tag_index-IsLinked : IsLinked new_tag_index
unfolding new_tag_index tagged old_tags contains lookup
new_tag_index-IsLinked = record { agree = λ t k. refl; clean = λ t keys h. cc }

old_tags-add :
    (ti : TagIndex) (key k : Bytes) (tags : List Bytes)
    → old_tags (add ti key tags) k ≡ ite (Bytes-discrete key k) tags (old_tags ti k)
unfolding old_tags add
old_tags-add ti key k tags = ground (arith, lookup-insert Bytes-discrete key k tags ti.key_to_tags)

tagged-add :
    (ti : TagIndex) (key : Bytes) (tags : List Bytes) (t k : Bytes)
    → IsLinked ti
    → tagged (add ti key tags).tag_to_keys t k
      ≡ ite (Bytes-discrete key k) (contains t tags) (tagged ti.tag_to_keys t k)
unfolding add
tagged-add ti key tags t k v = ground (
  arith,
  tagged-link_tags key tags (unlink_tags key ti.tag_to_keys (old_tags ti key)) t k,
  tagged-unlink_tags key (old_tags ti key) ti.tag_to_keys t k,
  v.agree t k,
)

-- `Add` keeps the two maps linked.
pub add-IsLinked :
    (ti : TagIndex) (key : Bytes) (tags : List Bytes) → IsLinked ti → IsLinked (add ti key tags)
unfolding add
add-IsLinked ti key tags v = record {
  agree =
      λ t k. ground (arith, tagged-add ti key tags t k v, old_tags-add ti key k tags, v.agree t k);
  clean =
      link_tags-IsClean key tags _
        (unlink_tags-IsClean key (old_tags ti key) ti.tag_to_keys v.clean);
}

pub remove_cases :
    (ti : TagIndex) (key t k : Bytes)
    → IsLinked ti
    → (tagged (remove ti key).tag_to_keys t k
        ≡ ite (Bytes-discrete key k) false (tagged ti.tag_to_keys t k))
      × (old_tags (remove ti key) k ≡ ite (Bytes-discrete key k) [] (old_tags ti k))
unfolding remove old_tags contains
remove_cases ti key t k v = elim (Option-cases (lookup Bytes-discrete key ti.key_to_tags)) [
  | inl e ↦ ground (arith, e, v.agree t k)
  | inr (tags, e) ↦ ground (
    arith,
    e,
    v.agree t k,
    tagged-unlink_tags key tags ti.tag_to_keys t k,
    lookup-delete Bytes-discrete key k ti.key_to_tags,
  )
]

remove-IsClean : (ti : TagIndex) (key : Bytes) → IsLinked ti → IsClean (remove ti key).tag_to_keys
unfolding remove
remove-IsClean ti key v = elim (Option-cases (lookup Bytes-discrete key ti.key_to_tags)) [
  | inl e ↦ rw (e, remove) v.clean
  | inr (tags, e) ↦ rw (e, remove) (unlink_tags-IsClean key tags ti.tag_to_keys v.clean)
]

-- `Remove` keeps the two maps linked.
pub remove-IsLinked : (ti : TagIndex) (key : Bytes) → IsLinked ti → IsLinked (remove ti key)
unfolding remove contains
remove-IsLinked ti key v = record {
  agree = λ t k. ground (arith, remove_cases ti key t k v, v.agree t k);
  clean = remove-IsClean ti key v;
}

contains-keys :
    (keys : KeySet) (k : Bytes)
    → contains k (map (λ b. b.0) keys)
      ≡ (elim (lookup Bytes-discrete k keys) [ none ↦ false | some _ ↦ true ])
unfolding contains lookup
contains-keys [] k = refl
contains-keys (b ∷ keys) k = ground (arith, contains-keys keys k)

pub contains-get_keys :
    (ti : TagIndex) (t k : Bytes) → contains k (get_keys_by_tag ti t) ≡ tagged ti.tag_to_keys t k
unfolding get_keys_by_tag tagged contains
contains-get_keys ti t k = elim (Option-cases (keys_of ti t)) [
  | inl e ↦ ground (arith, e)
  | inr (keys, e) ↦ ground (arith, e, contains-keys keys k)
]

-- The keys of a tag are those that have it among their tags.
pub contains-get_keys_by_tag :
    (ti : TagIndex) (t k : Bytes)
    → IsLinked ti
    → contains k (get_keys_by_tag ti t) ≡ contains t (old_tags ti k)
contains-get_keys_by_tag ti t k v = contains-get_keys ti t k ∙ v.agree t k

none_at_first : (k : Bytes) → old_tags new_tag_index k ≡ []
unfolding old_tags new_tag_index lookup
none_at_first k = refl

-- A call of the index.
pub data Call : Type 0 where
  adds : Bytes → List Bytes → Call
  removes : Bytes → Call

unfoldable pub run : TagIndex → List Call → TagIndex
run ti [] = ti
run ti (adds key tags ∷ calls) = run (add ti key tags) calls
run ti (removes key ∷ calls) = run (remove ti key) calls

-- The tags of each key: those of its last `Add`, and none after a `Remove`.
unfoldable pub recorded : (Bytes → List Bytes) → List Call → Bytes → List Bytes
recorded tags [] k = tags k
recorded tags (adds key ts ∷ calls) k =
    recorded (λ j. ite (Bytes-discrete key j) ts (tags j)) calls k
recorded tags (removes key ∷ calls) k =
    recorded (λ j. ite (Bytes-discrete key j) [] (tags j)) calls k

run_lem :
    (calls : List Call) (ti : TagIndex) (tags : Bytes → List Bytes)
    → IsLinked ti
    → ((k : Bytes) → old_tags ti k ≡ tags k)
    → IsLinked (run ti calls) × ((k : Bytes) → old_tags (run ti calls) k ≡ recorded tags calls k)
unfolding run recorded
run_lem [] ti tags v same = (v, same)
run_lem (adds key ts ∷ calls) ti tags v same =
    run_lem calls (add ti key ts) (λ j. ite (Bytes-discrete key j) ts (tags j))
      (add-IsLinked ti key ts v) (λ k. ground (arith, old_tags-add ti key k ts, same k))
run_lem (removes key ∷ calls) ti tags v same =
    run_lem calls (remove ti key) (λ j. ite (Bytes-discrete key j) [] (tags j))
      (remove-IsLinked ti key v) (λ k. ground (arith, (remove_cases ti key [] k v).1, same k))

-- After any history of calls on an empty index, a tag finds exactly the keys whose last `Add`
-- named it and that were not removed since.
pub contains-run :
    (calls : List Call) (t k : Bytes)
    → contains k (get_keys_by_tag (run new_tag_index calls) t)
      ≡ contains t (recorded (λ _. []) calls k)
contains-run calls t k =
    let (v, same) =
      run_lem calls new_tag_index (λ _. []) new_tag_index-IsLinked (λ j. none_at_first j) in
    contains-get_keys_by_tag _ t k v ∙ rw (same k)
