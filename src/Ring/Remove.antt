-- ===== src/Ring/Remove.antt =====
-- `RemoveNode` of internal/cluster/hashring.go: where no two hashes collide, only the keys of the
-- removed node move; where they do, a hash is left with no owner.
use cache_grid.Base.{
  ℕ, ◌≡◌, ◌≢◌, sym, ◌∙◌, ap, subst, Bytes, List, [], ◌∷◌, some, true, arith, Option-cases, inl, inr,
  ℕ_discrete,
}
use cache_grid.Base.GoMap.{delete}
use cache_grid.Store.Fnv.{fnv32a}
use cache_grid.Ring.State.{Ring, has_node, owner_of, remove_virtual, remove_node, get_node}
use cache_grid.Ring.Order.{clockwise, IsSorted}
use cache_grid.Ring.Owner.{get_node-clockwise}
use cache_grid.Ring.Others.{
  Distinct, others, owner_of-delete, remove_virtual-others, remove_virtual-owner, clockwise-others,
  others-IsSorted,
}

-- What `RemoveNode` does to a member, where `make` does not panic.
remove_node_member :
    (r : Ring) (name : Bytes) {r' : Ring}
    → has_node r name ≡ true
    → remove_node r name ≡ some r'
    → (r'.sorted_hashes ≡ (remove_virtual name r.sorted_hashes r.hash_map).0)
      × (r'.hash_map ≡ (remove_virtual name r.sorted_hashes r.hash_map).1)
unfolding remove_node
remove_node_member r name known done = ground arith

-- A ring that is sorted and where no two hashes collide.
pub record IsRegular (r : Ring) : Type 0 where
  pub sorted : IsSorted r.sorted_hashes
  pub distinct : Distinct r.sorted_hashes

module _ (r : Ring) (name : Bytes) {r' : Ring} (v : IsRegular r) (known : has_node r name ≡ true)
    (done : remove_node r name ≡ some r') where
  removed_hashes : r'.sorted_hashes ≡ others name r.hash_map r.sorted_hashes
  removed_hashes =
      (remove_node_member r name {r' = r'} known done).0
      ∙ remove_virtual-others name r.sorted_hashes r.hash_map v.distinct

  removed-IsSorted : IsSorted r'.sorted_hashes
  removed-IsSorted =
      subst IsSorted (sym removed_hashes) (others-IsSorted name r.hash_map r.sorted_hashes v.sorted)

  removed_owner :
      (h : ℕ) → owner_of r.hash_map h ≢ name → owner_of r'.hash_map h ≡ owner_of r.hash_map h
  removed_owner h ne =
      ap (λ m. owner_of m h) (remove_node_member r name {r' = r'} known done).1
      ∙ remove_virtual-owner name r.sorted_hashes r.hash_map h ne

-- On a ring with sorted hashes of which no two are equal, removing a member, where `make` does not
-- panic, leaves the node of every key that had a node other than the removed one.
pub get_node-remove_node :
    (r : Ring) (name key : Bytes) {r' : Ring}
    → IsRegular r
    → has_node r name ≡ true
    → remove_node r name ≡ some r'
    → get_node r key ≢ []
    → get_node r key ≢ name
    → get_node r' key ≡ get_node r key
get_node-remove_node r name key {r'} v known done owned other =
    elim (Option-cases (clockwise (fnv32a key) r.sorted_hashes)) [
      | inl e ↦ absurd (owned (ground (arith, get_node-clockwise r key v.sorted, e)))
      | inr (x, e) ↦
          let here : get_node r key ≡ owner_of r.hash_map x =
            ground (arith, get_node-clockwise r key v.sorted, e) in
          let ne : owner_of r.hash_map x ≢ name = λ h. other (here ∙ h) in
          ground (
            arith,
            here,
            removed_hashes r name {r' = r'} v known done,
            clockwise-others name r.hash_map (fnv32a key) r.sorted_hashes {x = x} v.sorted e ne,
            get_node-clockwise r' key (removed-IsSorted r name {r' = r'} v known done),
            removed_owner r name {r' = r'} v known done x ne,
          )
    ]

-- Where the hash of a removed node with a non-empty name stands twice at the front of the list,
-- the loop of `RemoveNode` leaves it in the list with no owner, so it reads as the empty name.
pub remove_virtual_dangling :
    (name : Bytes) (h : ℕ) (hs : List ℕ) (m : List (ℕ × Bytes))
    → owner_of m h ≡ name
    → name ≢ []
    → let (hashes, m') = remove_virtual name (h ∷ h ∷ hs) m in
      ((rest : List ℕ) × (hashes ≡ h ∷ rest)) × (owner_of m' h ≡ [])
unfolding remove_virtual
remove_virtual_dangling name h hs m owned named =
    let m' = delete ℕ_discrete h m in
    let gone : owner_of m' h ≡ [] = ground (arith, owner_of-delete h h m) in
    let ne : owner_of m' h ≢ name = λ e. named (sym e ∙ gone) in
    (
      ((remove_virtual name hs m').0, ground (arith, owned, ne)),
      ground (arith, owned, ne, gone, remove_virtual-owner name hs m' h ne),
    )
