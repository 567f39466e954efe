-- ===== src/Ring/Add.antt =====
-- `AddNode` of internal/cluster/hashring.go: only the new node gains keys.
use cache_grid.Base.{
  ℕ, zero, suc, ◌≡◌, ◌≢◌, ◌⊎◌, refl, sym, ◌∙◌, ap, Bytes, List, [], ◌∷◌, ◌++◌, Option, none, some,
  true, false, ite, arith, All, Bool-cases, Option-cases, inl, inr, ℕ_discrete,
}
use mathlib.Core.List.{append-nil, append_assoc}
use cache_grid.Base.GoMap.{insert, lookup-insert}
use cache_grid.Store.Fnv.{fnv32a}
use cache_grid.Ring.State.{
  Ring, has_node, owner_of, virtual_hash, add_virtual, sort, add_node, get_node,
}
use cache_grid.Ring.Order.{
  smaller, least_from, clockwise, IsSorted, least_from-append, least_from-All, clockwise-sort,
  sort-IsSorted,
}
use cache_grid.Ring.Owner.{get_node-clockwise}

-- The hashes of the virtual nodes from number `i` on.
unfoldable pub virtual_hashes : Bytes → ℕ → ℕ → List ℕ
virtual_hashes name i zero = []
virtual_hashes name i (suc left) = virtual_hash name i ∷ virtual_hashes name (suc i) left

pub add_virtual-hashes :
    (name : Bytes) (i left : ℕ) (hashes : List ℕ) (m : List (ℕ × Bytes))
    → (add_virtual name i left hashes m).0 ≡ hashes ++ virtual_hashes name i left
unfolding add_virtual virtual_hashes
add_virtual-hashes name i zero hashes m = sym (append-nil hashes)
add_virtual-hashes name i (suc left) hashes m = ground (
  arith,
  add_virtual-hashes name (suc i) left (hashes ++ virtual_hash name i ∷ [])
      (insert ℕ_discrete (virtual_hash name i) name m),
  append_assoc hashes (virtual_hash name i ∷ []) (virtual_hashes name (suc i) left),
)

owner_of-insert :
    (h j : ℕ) (name : Bytes) (m : List (ℕ × Bytes))
    → owner_of (insert ℕ_discrete h name m) j ≡ ite (ℕ_discrete h j) name (owner_of m j)
unfolding owner_of
owner_of-insert h j name m = ground (arith, lookup-insert ℕ_discrete h j name m)

-- A hash keeps its owner or gets the new one.
add_virtual-owner :
    (name : Bytes) (i left : ℕ) (hashes : List ℕ) (m : List (ℕ × Bytes)) (h : ℕ)
    → (owner_of (add_virtual name i left hashes m).1 h ≡ owner_of m h)
      ⊎ (owner_of (add_virtual name i left hashes m).1 h ≡ name)
unfolding add_virtual
add_virtual-owner name i zero hashes m h = inl refl
add_virtual-owner name i (suc left) hashes m h = ground (
  arith,
  owner_of-insert (virtual_hash name i) h name m,
  add_virtual-owner name (suc i) left (hashes ++ virtual_hash name i ∷ [])
      (insert ℕ_discrete (virtual_hash name i) name m) h,
)

-- The hashes of the virtual nodes get it.
add_virtual-owned :
    (name : Bytes) (i left : ℕ) (hashes : List ℕ) (m : List (ℕ × Bytes))
    → All (λ h. owner_of (add_virtual name i left hashes m).1 h ≡ name) (virtual_hashes name i left)
unfolding add_virtual virtual_hashes
add_virtual-owned name i zero hashes m = tt
add_virtual-owned name i (suc left) hashes m =
    let h = virtual_hash name i in
    let m' = insert ℕ_discrete h name m in
    (
      ground (
        arith,
        owner_of-insert h h name m,
        add_virtual-owner name (suc i) left (hashes ++ h ∷ []) m' h,
      ),
      add_virtual-owned name (suc i) left (hashes ++ h ∷ []) m',
    )

smaller_cases : (a b : Option ℕ) → (smaller a b ≡ a) ⊎ ((smaller a b ≡ b) × (b ≢ none))
unfolding smaller
smaller_cases none none = inl refl
smaller_cases none (some b) = inr (refl, λ e. cc)
smaller_cases (some a) none = inl refl
smaller_cases (some a) (some b) = ground arith

smaller-eq-none : (a b : Option ℕ) → smaller a b ≡ none → (a ≡ none) × (b ≡ none)
unfolding smaller
smaller-eq-none none b h = (refl, h)
smaller-eq-none (some a) none h = cc
smaller-eq-none (some a) (some b) h = cc

-- Among more hashes the least one is the same as before, or one of the others.
module _ (P : ℕ → Type 0) (h : ℕ) (xs ys : List ℕ) (all : All P ys) where
  least_from-append_cases :
      (least_from h (xs ++ ys) ≡ least_from h xs)
      ⊎ ((y : ℕ) × (least_from h (xs ++ ys) ≡ some y) × P y)
  least_from-append_cases = elim (smaller_cases (least_from h xs) (least_from h ys)) [
    | inl same ↦ inl (least_from-append h xs ys ∙ same)
    | inr (other, there) ↦ elim (Option-cases (least_from h ys)) [
      | inl e ↦ absurd (there e)
      | inr (y, e) ↦
          inr (y, least_from-append h xs ys ∙ other ∙ e, least_from-All P h ys {y = y} all e)
    ]
  ]

-- So is the next one clockwise.
module _ (P : ℕ → Type 0) (h : ℕ) (xs ys : List ℕ) (all : All P ys) where
  clockwise-append_cases :
      (clockwise h (xs ++ ys) ≡ clockwise h xs)
      ⊎ ((y : ℕ) × (clockwise h (xs ++ ys) ≡ some y) × P y)
  unfolding clockwise
  clockwise-append_cases = elim (least_from-append_cases P h xs ys all) [
    | inr (y, e, p) ↦ inr (y, ground (arith, e), p)
    | inl same ↦ elim (Option-cases (least_from h xs)) [
      | inr (x, e) ↦ inl (ground (arith, same, e))
      | inl e ↦ elim (least_from-append_cases P 0 xs ys all) [
        | inl same_first ↦ inl (ground (arith, same, e, same_first))
        | inr (y, e', p) ↦ inr (y, ground (arith, same, e, e'), p)
      ]
    ]
  ]

pub add_node-IsSorted :
    (r : Ring) (name : Bytes) → IsSorted r.sorted_hashes → IsSorted (add_node r name).sorted_hashes
unfolding add_node
add_node-IsSorted r name s =
    ground (arith, sort-IsSorted (add_virtual name 0 r.vnodes r.sorted_hashes r.hash_map).0)

-- A member is not added again.
pub add_node_known : (r : Ring) (name : Bytes) → has_node r name ≡ true → add_node r name ≡ r
unfolding add_node
add_node_known r name known = rw known

add_node_fresh :
    (r : Ring) (name : Bytes)
    → has_node r name ≡ false
    → ((add_node r name).sorted_hashes ≡ sort (r.sorted_hashes ++ virtual_hashes name 0 r.vnodes))
      × ((add_node r name).hash_map ≡ (add_virtual name 0 r.vnodes r.sorted_hashes r.hash_map).1)
unfolding add_node
add_node_fresh r name fresh =
    ground (arith, add_virtual-hashes name 0 r.vnodes r.sorted_hashes r.hash_map)

-- The next hash of a ring with a new node.
clockwise-add_node :
    (r : Ring) (name : Bytes) (h : ℕ)
    → has_node r name ≡ false
    → let c = clockwise h (add_node r name).sorted_hashes in
      (c ≡ clockwise h r.sorted_hashes)
      ⊎ ((y : ℕ) × (c ≡ some y) × (owner_of (add_node r name).hash_map y ≡ name))
clockwise-add_node r name h fresh =
    let (hashes, owners) = add_node_fresh r name fresh in
    let (left, m) = add_virtual name 0 r.vnodes r.sorted_hashes r.hash_map in
    let news = virtual_hashes name 0 r.vnodes in
    let sorted = ap (clockwise h) hashes ∙ clockwise-sort h (r.sorted_hashes ++ news) in
    elim (clockwise-append_cases (λ x. owner_of m x ≡ name) h r.sorted_hashes news
      (add_virtual-owned name 0 r.vnodes r.sorted_hashes r.hash_map)) [
        | inl same ↦ inl (sorted ∙ same)
        | inr (y, e, owned) ↦ inr (y, sorted ∙ e, ap (λ q. owner_of q y) owners ∙ owned)
      ]

-- On a ring with sorted hashes, adding a node leaves the node of a key as it was or makes it the
-- new node. This holds also where hashes of virtual nodes collide.
pub get_node-add_node :
    (r : Ring) (name key : Bytes)
    → IsSorted r.sorted_hashes
    → (get_node (add_node r name) key ≡ get_node r key) ⊎ (get_node (add_node r name) key ≡ name)
get_node-add_node r name key s = elim (Bool-cases (has_node r name)) [
  | inl known ↦ inl (ap (λ (q : Ring). get_node q key) (add_node_known r name known))
  | inr fresh ↦
      let old = get_node-clockwise r key s in
      let new = get_node-clockwise (add_node r name) key (add_node-IsSorted r name s) in
      elim (clockwise-add_node r name (fnv32a key) fresh) [
        | inr (y, e, owned) ↦ inr (ground (arith, new, e, owned))
        | inl same ↦ elim (Option-cases (clockwise (fnv32a key) r.sorted_hashes)) [
          | inl e ↦ inl (ground (arith, new, old, same, e))
          | inr (x, e) ↦ ground (
            arith,
            new,
            old,
            same,
            e,
            (add_node_fresh r name fresh).1,
            add_virtual-owner name 0 r.vnodes r.sorted_hashes r.hash_map x,
          )
        ]
      ]
]
