-- ===== src/Ring/State.antt =====
-- `Ring` of internal/cluster/hashring.go. Reading a missing key of a map gives the zero value: the
-- empty name, or `false`.
use cache_grid.Base.{
  ℕ, zero, suc, ◌+◌, ◌/◌, ◌%◌, Bytes, Bytes-discrete, List, [], ◌∷◌, ◌++◌, map, Option, none, some,
  Bool, true, false, ltb, leb, if◌then◌else◌, lookup, length, get_or, ℕ_discrete,
}
use cache_grid.Base.Int.{ℤ, pos, pos_part, ltb_ℤ}
use cache_grid.Base.GoMap.{insert, delete}
use cache_grid.Store.Fnv.{fnv32a}

pub record Ring : Type 0 where
  pub vnodes : ℕ
  pub sorted_hashes : List ℕ
  pub hash_map : List (ℕ × Bytes)
  pub members : List (Bytes × Bool)

abbrev pub default_virtual_nodes : ℕ
default_virtual_nodes = 150

unfoldable pub new_ring : ℤ → Ring
new_ring vnodes = record {
  vnodes = if ltb_ℤ (pos 0) vnodes then pos_part vnodes else default_virtual_nodes;
  sorted_hashes = [];
  hash_map = [];
  members = [];
}

unfoldable pub has_node : Ring → Bytes → Bool
has_node r name = elim (lookup Bytes-discrete name r.members) [ none ↦ false | some b ↦ b ]

unfoldable pub owner_of : List (ℕ × Bytes) → ℕ → Bytes
owner_of m h = elim (lookup ℕ_discrete h m) [ none ↦ [] | some name ↦ name ]

-- A number in decimal, as `%d` prints it; the fuel is more than its digits.
unfoldable pub decimal_fuel : ℕ → ℕ → Bytes → Bytes
decimal_fuel zero n acc = acc
decimal_fuel (suc fuel) n acc =
    let rest = decimal_fuel fuel (n / 10) ((b'0' + n % 10) ∷ acc) in
    if ltb n 10 then (b'0' + n) ∷ acc else rest

-- `hashKey(fmt.Sprintf("%s-%d", name, i))`.
unfoldable pub virtual_hash : Bytes → ℕ → ℕ
unfolding decimal_fuel fnv32a
virtual_hash name i = fnv32a (name ++ b'-' ∷ decimal_fuel (suc i) i [])

-- The loop of `AddNode` over the virtual nodes, from number `i` on.
unfoldable pub add_virtual : Bytes → ℕ → ℕ → List ℕ → List (ℕ × Bytes) → List ℕ × List (ℕ × Bytes)
add_virtual name i zero hashes m = (hashes, m)
add_virtual name i (suc left) hashes m =
    let h = virtual_hash name i in
    add_virtual name (suc i) left (hashes ++ h ∷ []) (insert ℕ_discrete h name m)

-- `sort.Slice` in ascending order: of numbers there is one sorted list.
unfoldable pub insert_sorted : ℕ → List ℕ → List ℕ
insert_sorted x [] = x ∷ []
insert_sorted x (y ∷ ys) = let rest = insert_sorted x ys in if leb x y then x ∷ y ∷ ys else y ∷ rest

unfoldable pub sort : List ℕ → List ℕ
unfolding insert_sorted
sort [] = []
sort (x ∷ xs) = insert_sorted x (sort xs)

unfoldable pub add_node : Ring → Bytes → Ring
add_node r name =
    if has_node r name
    then r
    else let (hashes, m) = add_virtual name 0 r.vnodes r.sorted_hashes r.hash_map in
      record r {
        members = insert Bytes-discrete name true r.members;
        sorted_hashes = sort hashes;
        hash_map = m;
      }

-- The loop of `RemoveNode`.
unfoldable pub remove_virtual : Bytes → List ℕ → List (ℕ × Bytes) → List ℕ × List (ℕ × Bytes)
remove_virtual name [] m = ([], m)
remove_virtual name (h ∷ hs) m = elim (Bytes-discrete (owner_of m h) name) [
  | yes _ ↦ remove_virtual name hs (delete ℕ_discrete h m)
  | no _ ↦ let (kept, m') = remove_virtual name hs m in (h ∷ kept, m')
]

-- A negative capacity in `make` panics: `none`.
unfoldable pub remove_node : Ring → Bytes → Option Ring
remove_node r name =
    if has_node r name
    then (if ltb (length r.sorted_hashes) r.vnodes
        then none
        else let (hashes, m) = remove_virtual name r.sorted_hashes r.hash_map in
          some (record r {
            members = delete Bytes-discrete name r.members;
            sorted_hashes = hashes;
            hash_map = m;
          }))
    else some r

-- `sort.Search`: bisection of [i, j), with fuel for its rounds.
unfoldable pub search_fuel : ℕ → (ℕ → Bool) → ℕ → ℕ → ℕ
search_fuel zero f i j = i
search_fuel (suc fuel) f i j =
    let mid = (i + j) / 2 in
    let below = search_fuel fuel f i mid in
    let above = search_fuel fuel f (suc mid) j in
    if ltb i j then (if f mid then below else above) else i

-- The index of the first hash that is not below `h`, or 0 where there is none.
unfoldable pub start_index : List ℕ → ℕ → ℕ
start_index hashes h =
    let n = length hashes in
    let idx = search_fuel (suc n) (λ i. leb h (get_or hashes i 0)) 0 n in
    if leb n idx then 0 else idx

unfoldable pub get_node : Ring → Bytes → Bytes
get_node r key = elim r.sorted_hashes [
  | [] ↦ []
  | _ ↦ owner_of r.hash_map (get_or r.sorted_hashes (start_index r.sorted_hashes (fnv32a key)) 0)
]

-- The marks of the nodes that `GetNodes` has met.
unfoldable pub seen : Bytes → List (Bytes × Bool) → Bool
seen name m = elim (lookup Bytes-discrete name m) [ none ↦ false | some b ↦ b ]

-- The walk of `GetNodes`: `left` hashes from the `i`-th one after `idx` on. `n` is not negative: for
-- a negative one Go panics on the capacity of the result.
unfoldable pub walk : Ring → ℕ → ℕ → ℕ → ℕ → List (Bytes × Bool) → List Bytes → List Bytes
walk r idx n i zero marks result = result
walk r idx n i (suc left) marks result =
    let name =
      owner_of r.hash_map (get_or r.sorted_hashes ((idx + i) % length r.sorted_hashes) 0) in
    let stay = walk r idx n (suc i) left marks result in
    let take =
      walk r idx n (suc i) left (insert Bytes-discrete name true marks) (result ++ name ∷ []) in
    if ltb (length result) n then (if seen name marks then stay else take) else result

unfoldable pub get_nodes : Ring → Bytes → ℕ → List Bytes
get_nodes r key n = elim r.sorted_hashes [
  | [] ↦ []
  | _ ↦
      let member_count = length r.members in
      let wanted = if ltb member_count n then member_count else n in
      walk r (start_index r.sorted_hashes (fnv32a key)) wanted 0 (length r.sorted_hashes) [] []
]

unfoldable pub member_names : Ring → List Bytes
member_names r = map (λ b. b.0) r.members

unfoldable pub is_empty : Ring → Bool
is_empty r = elim r.members [ [] ↦ true | _ ↦ false ]
