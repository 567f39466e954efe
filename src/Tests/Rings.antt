-- ===== src/Tests/Rings.antt =====
-- Runs of internal/cluster/hashring.go, and its theorems at concrete inputs.
use cache_grid.Base.{
  ℕ, ◌≡◌, ◌⊎◌, refl, ap, Bytes-discrete, ℕ_discrete, lookup, List, [], ◌∷◌, none, some, arith,
  get_or, map, take,
}
use cache_grid.Base.Int.{pos}
use cache_grid.Base.GoMap.{insert, delete}
use cache_grid.Store.Fnv.{fnv32a, fnv_loop}
use cache_grid.Ring.State.{
  Ring, new_ring, has_node, owner_of, decimal_fuel, virtual_hash, add_virtual, insert_sorted, sort,
  add_node, remove_virtual, remove_node, search_fuel, start_index, get_node, seen, walk, get_nodes,
}
use cache_grid.Ring.Order.{clockwise, IsSorted}
use cache_grid.Ring.Owner.{get_node-clockwise}
use cache_grid.Ring.Rotation.{clockwise_from}
use cache_grid.Ring.Several.{first_names, wanted, get_nodes-first_names}
use cache_grid.Ring.Add.{get_node-add_node, add_node-IsSorted}
use cache_grid.Ring.Remove.{IsRegular, get_node-remove_node, remove_virtual_dangling}
use cache_grid.Tests.Data.{key_a, key_b}

unfoldable pub ring_code : Unit {0}
unfolding lookup ℕ_discrete Bytes-discrete insert delete fnv32a fnv_loop new_ring has_node owner_of
    decimal_fuel virtual_hash add_virtual insert_sorted sort add_node remove_virtual remove_node
    search_fuel start_index get_node seen walk get_nodes
ring_code = tt

-- Two nodes, `a` and `b`, of two virtual nodes each.
abbrev pub two_nodes : Ring
two_nodes = add_node (add_node (new_ring (pos 2)) key_a) key_b

ring_run :
    (virtual_hash key_a 12 ≡ fnv32a (b'a' ∷ b'-' ∷ b'1' ∷ b'2' ∷ []))
    × (get_node (new_ring (pos 2)) key_a ≡ [])
    × (get_node (add_node (new_ring (pos 2)) key_a) key_b ≡ key_a)
    × (get_nodes two_nodes key_a 5 ≡ key_b ∷ key_a ∷ [])
unfolding ring_code
ring_run = (refl, refl, refl, refl)

two_nodes-IsSorted : IsSorted two_nodes.sorted_hashes
unfolding new_ring
two_nodes-IsSorted =
    add_node-IsSorted (add_node (new_ring (pos 2)) key_a) key_b
      (add_node-IsSorted (new_ring (pos 2)) key_a (none_yet))
  where
    none_yet : IsSorted (new_ring (pos 2)).sorted_hashes
    none_yet = tt

two_nodes-IsRegular : IsRegular two_nodes
unfolding ring_code
two_nodes-IsRegular = record {
  sorted = two_nodes-IsSorted;
  distinct = (
    (λ h. omega arith, (λ h. omega arith, (λ h. omega arith, tt))),
    ((λ h. omega arith, (λ h. omega arith, tt)), ((λ h. omega arith, tt), (tt, tt))),
  );
}

get_node-clockwise_example :
    get_node two_nodes key_a ≡ (elim (clockwise (fnv32a key_a) two_nodes.sorted_hashes) [
      | none ↦ []
      | some h ↦ owner_of two_nodes.hash_map h
    ])
get_node-clockwise_example = get_node-clockwise two_nodes key_a two_nodes-IsSorted

get_node-add_node_example :
    (get_node (add_node two_nodes (b'c' ∷ [])) key_a ≡ get_node two_nodes key_a)
    ⊎ (get_node (add_node two_nodes (b'c' ∷ [])) key_a ≡ b'c' ∷ [])
get_node-add_node_example = get_node-add_node two_nodes (b'c' ∷ []) key_a two_nodes-IsSorted

-- The ring without `a`.
abbrev one_node : Ring
one_node = record {
  vnodes = 2;
  sorted_hashes = (remove_virtual key_a two_nodes.sorted_hashes two_nodes.hash_map).0;
  hash_map = (remove_virtual key_a two_nodes.sorted_hashes two_nodes.hash_map).1;
  members = delete Bytes-discrete key_a two_nodes.members;
}

get_node-remove_node_example : get_node one_node key_a ≡ get_node two_nodes key_a
unfolding ring_code
get_node-remove_node_example =
    get_node-remove_node two_nodes key_a key_a {r' = one_node} two_nodes-IsRegular refl refl
      (λ h. omega (arith, ap (λ xs. get_or xs 0 0) h))
      (λ h. omega (arith, ap (λ xs. get_or xs 0 0) h))

remove_virtual_dangling_example :
    let (hashes, m') = remove_virtual key_a (7 ∷ 7 ∷ []) ((7, key_a) ∷ []) in
    ((rest : List ℕ) × (hashes ≡ 7 ∷ rest)) × (owner_of m' 7 ≡ [])
unfolding ring_code
remove_virtual_dangling_example =
    remove_virtual_dangling key_a 7 [] ((7, key_a) ∷ []) refl
      (λ h. omega (arith, ap (λ xs. get_or xs 0 0) h))

get_nodes-first_names_example :
    get_nodes two_nodes key_a 2
    ≡ take (wanted two_nodes 2) (
        first_names [] (
          map
            (owner_of two_nodes.hash_map)
            (clockwise_from (fnv32a key_a) two_nodes.sorted_hashes)))
get_nodes-first_names_example = get_nodes-first_names two_nodes key_a 2 two_nodes-IsSorted
