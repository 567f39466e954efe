-- ===== src/Tags/Linked.antt =====
-- The two maps of tags.go say the same.
use cache_grid.Base.{
  ◌≡◌, ◌≢◌, refl, Bytes, Bytes-discrete, List, [], ◌∷◌, none, some, Bool, true, false, ite,
  if◌then◌else◌, lookup, arith, Option-cases, inl, inr,
}
use cache_grid.Base.GoMap.{
  insert, delete, Unique, lookup-insert, lookup-delete, delete-Unique, insert-Unique,
}
use cache_grid.Tags.Index.{KeySet, put_or_drop, unlink_tag, unlink_tags, link_tag, link_tags}

-- Whether a tag's set has a key.
unfoldable pub tagged : List (Bytes × KeySet) → Bytes → Bytes → Bool
tagged m tag key = elim (lookup Bytes-discrete tag m) [
  | none ↦ false
  | some keys ↦ elim (lookup Bytes-discrete key keys) [ none ↦ false | some _ ↦ true ]
]

unfoldable pub contains : Bytes → List Bytes → Bool
contains tag [] = false
contains tag (t ∷ ts) = let rest = contains tag ts in ite (Bytes-discrete tag t) true rest

tagged-put_or_drop :
    (m : List (Bytes × KeySet)) (tag : Bytes) (keys : KeySet) (t k : Bytes)
    → tagged (put_or_drop m tag keys) t k
      ≡ ite
          (Bytes-discrete tag t)
          (elim (lookup Bytes-discrete k keys) [ none ↦ false | some _ ↦ true ])
          (tagged m t k)
unfolding tagged put_or_drop lookup
tagged-put_or_drop m tag [] t k = ground (arith, lookup-delete Bytes-discrete tag t m)
tagged-put_or_drop m tag (b ∷ keys) t k =
    ground (arith, lookup-insert Bytes-discrete tag t (b ∷ keys) m)

tagged-unlink_tag :
    (key : Bytes) (m : List (Bytes × KeySet)) (tag t k : Bytes)
    → tagged (unlink_tag key m tag) t k
      ≡ ite (Bytes-discrete tag t) (ite (Bytes-discrete key k) false (tagged m t k)) (tagged m t k)
unfolding unlink_tag tagged
tagged-unlink_tag key m tag t k = elim (Option-cases (lookup Bytes-discrete tag m)) [
  | inl e ↦ ground (arith, e)
  | inr (keys, e) ↦ ground (
    arith,
    e,
    tagged-put_or_drop m tag (delete Bytes-discrete key keys) t k,
    lookup-delete Bytes-discrete key k keys,
  )
]

pub tagged-unlink_tags :
    (key : Bytes) (tags : List Bytes) (m : List (Bytes × KeySet)) (t k : Bytes)
    → tagged (unlink_tags key m tags) t k
      ≡ (if contains t tags then ite (Bytes-discrete key k) false (tagged m t k) else tagged m t k)
unfolding unlink_tags contains
tagged-unlink_tags key [] m t k = refl
tagged-unlink_tags key (tag ∷ tags) m t k =
    ground (
      arith,
      tagged-unlink_tags key tags (unlink_tag key m tag) t k,
      tagged-unlink_tag key m tag t k,
    )

tagged-link_tag :
    (key : Bytes) (m : List (Bytes × KeySet)) (tag t k : Bytes)
    → tagged (link_tag key m tag) t k
      ≡ ite (Bytes-discrete tag t) (ite (Bytes-discrete key k) true (tagged m t k)) (tagged m t k)
unfolding link_tag tagged lookup
tagged-link_tag key m tag t k = elim (Option-cases (lookup Bytes-discrete tag m)) [
  | inl e ↦ ground (arith, e, lookup-insert Bytes-discrete tag t ((key, tt) ∷ []) m)
  | inr (keys, e) ↦ ground (
    arith,
    e,
    lookup-insert Bytes-discrete tag t (insert Bytes-discrete key tt keys) m,
    lookup-insert Bytes-discrete key k tt keys,
  )
]

pub tagged-link_tags :
    (key : Bytes) (tags : List Bytes) (m : List (Bytes × KeySet)) (t k : Bytes)
    → tagged (link_tags key m tags) t k
      ≡ (if contains t tags then ite (Bytes-discrete key k) true (tagged m t k) else tagged m t k)
unfolding link_tags contains
tagged-link_tags key [] m t k = refl
tagged-link_tags key (tag ∷ tags) m t k =
    ground
      (arith, tagged-link_tags key tags (link_tag key m tag) t k, tagged-link_tag key m tag t k)

-- The set of a tag, if there is one, is not empty and has no key twice.
abbrev pub IsClean : List (Bytes × KeySet) → Type 0
IsClean m =
    (t : Bytes) (keys : KeySet)
    → lookup Bytes-discrete t m ≡ some keys
    → (keys ≢ []) × Unique Bytes-discrete keys

put_or_drop-IsClean :
    (m : List (Bytes × KeySet)) (tag : Bytes) (keys : KeySet)
    → Unique Bytes-discrete keys
    → IsClean m
    → IsClean (put_or_drop m tag keys)
unfolding put_or_drop
put_or_drop-IsClean m tag [] u c t ks h =
    ground (arith, lookup-delete Bytes-discrete tag t m, c t ks)
put_or_drop-IsClean m tag (b ∷ keys) u c t ks h =
    ground (arith, lookup-insert Bytes-discrete tag t (b ∷ keys) m, c t ks)

unlink_tag-IsClean :
    (key : Bytes) (m : List (Bytes × KeySet)) (tag : Bytes)
    → IsClean m
    → IsClean (unlink_tag key m tag)
unfolding unlink_tag
unlink_tag-IsClean key m tag c = elim (Option-cases (lookup Bytes-discrete tag m)) [
  | inl e ↦ rw (e, unlink_tag) c
  | inr (keys, e) ↦
      rw (e, unlink_tag)
        (put_or_drop-IsClean m tag (delete Bytes-discrete key keys)
          (delete-Unique Bytes-discrete key keys (c tag keys e).1) c)
]

pub unlink_tags-IsClean :
    (key : Bytes) (tags : List Bytes) (m : List (Bytes × KeySet))
    → IsClean m
    → IsClean (unlink_tags key m tags)
unfolding unlink_tags
unlink_tags-IsClean key [] m c = c
unlink_tags-IsClean key (tag ∷ tags) m c =
    unlink_tags-IsClean key tags (unlink_tag key m tag) (unlink_tag-IsClean key m tag c)

insert-IsClean :
    (m : List (Bytes × KeySet)) (tag : Bytes) (keys : KeySet)
    → keys ≢ []
    → Unique Bytes-discrete keys
    → IsClean m
    → IsClean (insert Bytes-discrete tag keys m)
insert-IsClean m tag keys ne u c t ks h = elim (Bytes-discrete tag t) [
  | yes same ↦ ground (arith, lookup-insert Bytes-discrete tag t keys m)
  | no other ↦ c t ks (ground (arith, lookup-insert Bytes-discrete tag t keys m))
]

link_tag-IsClean :
    (key : Bytes) (m : List (Bytes × KeySet)) (tag : Bytes)
    → IsClean m
    → IsClean (link_tag key m tag)
unfolding link_tag insert lookup
link_tag-IsClean key m tag c = elim (Option-cases (lookup Bytes-discrete tag m)) [
  | inl e ↦ rw (e, link_tag) (insert-IsClean m tag ((key, tt) ∷ []) (λ h. cc) (refl, tt) c)
  | inr (keys, e) ↦
      rw (e, link_tag)
        (insert-IsClean m tag (insert Bytes-discrete key tt keys) (λ h. cc)
          (insert-Unique Bytes-discrete key tt keys (c tag keys e).1) c)
]

pub link_tags-IsClean :
    (key : Bytes) (tags : List Bytes) (m : List (Bytes × KeySet))
    → IsClean m
    → IsClean (link_tags key m tags)
unfolding link_tags
link_tags-IsClean key [] m c = c
link_tags-IsClean key (tag ∷ tags) m c =
    link_tags-IsClean key tags (link_tag key m tag) (link_tag-IsClean key m tag c)
