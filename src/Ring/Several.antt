-- ===== src/Ring/Several.antt =====
-- `GetNodes` of internal/cluster/hashring.go: several nodes for a key.
use cache_grid.Base.{
  ℕ, zero, suc, ◌+◌, ◌-◌, ◌%◌, ◌≤◌, ◌<◌, ◌≡◌, refl, sym, ◌∙◌, ap, Bytes, Bytes-discrete, List, [],
  ◌∷◌, ◌++◌, map, Bool, true, false, ite, ltb, if◌then◌else◌, length, length-append, get_or, lookup,
  take, Bool-cases, inl, inr, arith,
}
use mathlib.Core.List.{append-nil, append_assoc}
use cache_grid.Base.GoMap.{insert, lookup-insert}
use cache_grid.Store.Fnv.{fnv32a}
use cache_grid.Ring.State.{Ring, owner_of, start_index, seen, walk, get_nodes}
use cache_grid.Ring.Order.{IsSorted}
use cache_grid.Ring.Rotation.{hashes_around, clockwise_from, hashes_around-clockwise_from}

abbrev pub is_among : Bytes → List Bytes → Bool
is_among x [] = false
is_among x (y ∷ l) = let rest = is_among x l in ite (Bytes-discrete y x) true rest

-- The names of a list in the order in which they first occur, less those that were met before.
unfoldable pub first_names : List Bytes → List Bytes → List Bytes
first_names met [] = []
first_names met (x ∷ l) =
    let old = first_names met l in
    let new = first_names (met ++ x ∷ []) l in if is_among x met then old else x ∷ new

-- What is asked for, or all members.
abbrev pub wanted : Ring → ℕ → ℕ
wanted r n = if ltb (length r.members) n then length r.members else n

is_among-append :
    (x y : Bytes) (l : List Bytes)
    → is_among x (l ++ y ∷ []) ≡ ite (Bytes-discrete y x) true (is_among x l)
is_among-append x y [] = refl
is_among-append x y (z ∷ l) = ground (arith, is_among-append x y l)

-- The marks are those of the names that were taken.
abbrev Marked : List (Bytes × Bool) → List Bytes → Type 0
Marked marks result = (x : Bytes) → seen x marks ≡ is_among x result

Marked-take :
    (name : Bytes) (marks : List (Bytes × Bool)) (result : List Bytes)
    → Marked marks result
    → Marked (insert Bytes-discrete name true marks) (result ++ name ∷ [])
unfolding seen
Marked-take name marks result m x =
    ground
      (arith, lookup-insert Bytes-discrete name x true marks, is_among-append x name result, m x)

-- The owners of the hashes that a walk meets from its `i`-th round on.
abbrev owners : Ring → ℕ → ℕ → ℕ → List Bytes
owners r idx i zero = []
owners r idx i (suc left) =
    owner_of r.hash_map (get_or r.sorted_hashes ((idx + i) % length r.sorted_hashes) 0)
    ∷ owners r idx (suc i) left

take_none : (k : ℕ) → take {A = Bytes} k [] ≡ []
unfolding take
take_none zero = refl
take_none (suc k) = refl

take_more : (k : ℕ) (x : Bytes) (l : List Bytes) → 0 < k → take k (x ∷ l) ≡ x ∷ take (k - 1) l
unfolding take
take_more zero x l h = absurd (omega arith)
take_more (suc k) x l h = let same : k ≡ suc k - 1 = omega arith in ap (λ j. x ∷ take j l) same

walk-first_names :
    (r : Ring) (idx n i left : ℕ) (marks : List (Bytes × Bool)) (result : List Bytes)
    → Marked marks result
    → length result ≤ n
    → walk r idx n i left marks result
      ≡ result ++ take (n - length result) (first_names result (owners r idx i left))
unfolding walk first_names take
walk-first_names r idx n i zero marks result m le =
    sym (ap (λ l. result ++ l) (take_none (n - length result)) ∙ append-nil result)
walk-first_names r idx n i (suc left) marks result m le =
    let name =
      owner_of r.hash_map (get_or r.sorted_hashes ((idx + i) % length r.sorted_hashes) 0) in
    let later = owners r idx (suc i) left in
    elim (Bool-cases (ltb (length result) n)) [
      | inr full ↦
          let rest : n - length result ≡ 0 = ground arith in
          let names = first_names result (owners r idx i (suc left)) in
          rw (walk, full) (sym (ap (λ k. result ++ take k names) rest ∙ append-nil result))
      | inl more ↦ elim (Bool-cases (seen name marks)) [
        | inl met ↦
            let old : is_among name result ≡ true = sym (m name) ∙ met in
            rw (walk, first_names, more, met, old)
              (walk-first_names r idx n (suc i) left marks result m le)
        | inr unmet ↦
            let new : is_among name result ≡ false = sym (m name) ∙ unmet in
            let result' = result ++ name ∷ [] in
            let room : length result' ≤ n = ground (arith, length-append result (name ∷ [])) in
            let size : n - length result' ≡ n - length result - 1 =
              omega (arith, length-append result (name ∷ [])) in
            let names = first_names result' later in
            rw (walk, first_names, more, unmet, new)
              (walk-first_names r idx n (suc i) left (insert Bytes-discrete name true marks) result'
                  (Marked-take name marks result m) room
                ∙ append_assoc result (name ∷ []) (take (n - length result') names)
                ∙ ap (λ k. result ++ name ∷ take k names) size
                ∙ ap (λ l. result ++ l)
                    (sym (take_more (n - length result) name names (ground arith))))
      ]
    ]

owners-hashes_around :
    (r : Ring) (idx i left : ℕ)
    → owners r idx i left ≡ map (owner_of r.hash_map) (hashes_around r.sorted_hashes (idx + i) left)
owners-hashes_around r idx i zero = refl
owners-hashes_around r idx i (suc left) =
    let next : idx + suc i ≡ suc (idx + i) = omega arith in
    ap
      (λ l. owner_of r.hash_map (get_or r.sorted_hashes ((idx + i) % length r.sorted_hashes) 0) ∷ l)
      (owners-hashes_around r idx (suc i) left
        ∙ ap (λ k. map (owner_of r.hash_map) (hashes_around r.sorted_hashes k left)) next)

get_nodes-walk :
    (r : Ring) (key : Bytes) (n : ℕ)
    → get_nodes r key n
      ≡ walk r
          (start_index r.sorted_hashes (fnv32a key))
          (wanted r n)
          0
          (length r.sorted_hashes)
          []
          []
unfolding get_nodes walk
get_nodes-walk r key n = by_hashes r.sorted_hashes refl
  where
    by_hashes :
        (hashes : List ℕ)
        → r.sorted_hashes ≡ hashes
        → get_nodes r key n
          ≡ walk r
              (start_index r.sorted_hashes (fnv32a key))
              (wanted r n)
              0
              (length r.sorted_hashes)
              []
              []
    by_hashes [] e = rw (get_nodes, e) refl
    by_hashes (h ∷ hashes) e =
        let start = start_index r.sorted_hashes (fnv32a key) in
        let out = walk r start (wanted r n) 0 (length r.sorted_hashes) [] [] in
        ap (λ hs. elim hs [ [] ↦ [] | _ ↦ out ]) e

-- On a ring with sorted hashes, `GetNodes` answers with the first `n` names, or as many as there are
-- members, of the list that the owners of all hashes make clockwise from the key's hash, each name
-- where it first occurs.
pub get_nodes-first_names :
    (r : Ring) (key : Bytes) (n : ℕ)
    → IsSorted r.sorted_hashes
    → get_nodes r key n
      ≡ take
          (wanted r n)
          (first_names [] (map (owner_of r.hash_map) (clockwise_from (fnv32a key) r.sorted_hashes)))
unfolding seen lookup
get_nodes-first_names r key n sorted =
    let start = start_index r.sorted_hashes (fnv32a key) in
    let hashes = length r.sorted_hashes in
    let whole : wanted r n - 0 ≡ wanted r n = omega arith in
    let same : start + 0 ≡ start = omega arith in
    get_nodes-walk r key n
    ∙ walk-first_names r start (wanted r n) 0 hashes [] [] (λ x. refl) (omega arith)
    ∙ ap (λ k. take k (first_names [] (owners r start 0 hashes))) whole
    ∙ ap (λ l. take (wanted r n) (first_names [] l))
        (owners-hashes_around r start 0 hashes
          ∙ ap (λ k. map (owner_of r.hash_map) (hashes_around r.sorted_hashes k hashes)) same
          ∙ ap (map (owner_of r.hash_map))
              (hashes_around-clockwise_from (fnv32a key) r.sorted_hashes sorted))
