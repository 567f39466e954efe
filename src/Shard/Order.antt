-- ===== src/Shard/Order.antt =====
-- The LRU list of a shard, read by key instead of by element.
use cache_grid.Base.{
  ℕ, suc, ◌+◌, ◌<◌, ◌≡◌, refl, Bytes, Bytes-discrete, List, [], ◌∷◌, Option, none, some, ite,
  length, All, arith, Option-cases, inl, inr,
}
use cache_grid.Shard.Entry.{Entry}
use cache_grid.Shard.Lru.{find_element, unlink, split_back}

unfoldable pub find_key : Bytes → List Entry → Option Entry
find_key k [] = none
find_key k (e ∷ es) = ite (Bytes-discrete k e.key) (some e) (find_key k es)

unfoldable pub remove_key : Bytes → List Entry → List Entry
remove_key k [] = []
remove_key k (e ∷ es) = let rest = remove_key k es in ite (Bytes-discrete k e.key) rest (e ∷ rest)

unfoldable pub total : List Entry → ℕ
total [] = 0
total (e ∷ es) = e.size + total es

-- Neither a key nor an element stands twice.
abbrev pub Distinct : List Entry → Type 0
Distinct [] = Unit
Distinct (e ∷ es) = (find_key e.key es ≡ none) × (find_element e.element es ≡ none) × Distinct es

pub find_key-key : (k : Bytes) (es : List Entry) {e : Entry} → find_key k es ≡ some e → e.key ≡ k
unfolding find_key
find_key-key k [] h = cc
find_key-key k (x ∷ es) {e} h = ground (arith, find_key-key k es {e = e})

pub find_key-remove_key :
    (k j : Bytes) (es : List Entry)
    → find_key j (remove_key k es) ≡ ite (Bytes-discrete k j) none (find_key j es)
unfolding find_key remove_key
find_key-remove_key k j [] = ground arith
find_key-remove_key k j (x ∷ es) = ground (arith, find_key-remove_key k j es)

pub remove_key_absent : (k : Bytes) (es : List Entry) → find_key k es ≡ none → remove_key k es ≡ es
unfolding find_key remove_key
remove_key_absent k [] h = refl
remove_key_absent k (x ∷ es) h = ground (arith, remove_key_absent k es)

pub find_element-of_find_key :
    (k : Bytes) (es : List Entry) {e : Entry}
    → Distinct es
    → find_key k es ≡ some e
    → find_element e.element es ≡ some e
unfolding find_key find_element
find_element-of_find_key k [] d h = cc
find_element-of_find_key k (x ∷ es) {e} d h =
    ground (arith, find_element-of_find_key k es {e = e} d.2)

pub unlink-remove_key :
    (k : Bytes) (es : List Entry) {e : Entry}
    → Distinct es
    → find_key k es ≡ some e
    → unlink e.element es ≡ remove_key k es
unfolding find_key find_element unlink remove_key
unlink-remove_key k [] d h = cc
unlink-remove_key k (x ∷ es) {e} d h = ground (
  arith,
  unlink-remove_key k es {e = e} d.2,
  remove_key_absent k es,
  find_element-of_find_key k es {e = e} d.2,
)

find_element-remove_key :
    (el : ℕ) (k : Bytes) (es : List Entry)
    → find_element el es ≡ none
    → find_element el (remove_key k es) ≡ none
unfolding find_element remove_key
find_element-remove_key el k [] h = refl
find_element-remove_key el k (x ∷ es) h = ground (arith, find_element-remove_key el k es)

pub remove_key-Distinct : (k : Bytes) (es : List Entry) → Distinct es → Distinct (remove_key k es)
unfolding remove_key
remove_key-Distinct k [] d = tt
remove_key-Distinct k (x ∷ es) d = ground (
  arith,
  remove_key-Distinct k es d.2,
  find_key-remove_key k x.key es,
  find_element-remove_key x.element k es,
)

pub total-remove_key :
    (k : Bytes) (es : List Entry) {e : Entry}
    → Distinct es
    → find_key k es ≡ some e
    → total es ≡ e.size + total (remove_key k es)
unfolding total find_key remove_key
total-remove_key k [] d h = cc
total-remove_key k (x ∷ es) {e} d h =
    ground (arith, total-remove_key k es {e = e} d.2, remove_key_absent k es)

pub length-remove_key :
    (k : Bytes) (es : List Entry) {e : Entry}
    → Distinct es
    → find_key k es ≡ some e
    → length es ≡ suc (length (remove_key k es))
unfolding find_key remove_key
length-remove_key k [] d h = cc
length-remove_key k (x ∷ es) {e} d h =
    ground (arith, length-remove_key k es {e = e} d.2, remove_key_absent k es)

pub All-remove_key {ℓ} :
    (P : Entry → Type ℓ) (k : Bytes) (es : List Entry) → All P es → All P (remove_key k es)
unfolding remove_key
All-remove_key P k [] a = tt
All-remove_key P k (x ∷ es) a = ground (arith, All-remove_key P k es a.1)

pub All-find_key {ℓ} :
    (P : Entry → Type ℓ) (k : Bytes) (es : List Entry) {e : Entry}
    → All P es
    → find_key k es ≡ some e
    → P e
unfolding find_key
All-find_key P k [] a h = cc
All-find_key P k (x ∷ es) {e} a h = ground (arith, All-find_key P k es {e = e} a.1)

-- A new element is in no list of older ones.
pub find_element_fresh :
    (el : ℕ) (es : List Entry) → All (λ e. e.element < el) es → find_element el es ≡ none
unfolding find_element
find_element_fresh el [] a = refl
find_element_fresh el (x ∷ es) a = ground (arith, find_element_fresh el es a.1)

pub split_back-eq-none : (es : List Entry) → split_back es ≡ none → es ≡ []
unfolding split_back
split_back-eq-none [] h = refl
split_back-eq-none (x ∷ es) h = ground arith

-- The oldest entry is the last one, and to split it off is to remove its key.
pub split_back-remove_key :
    (es : List Entry) {last : Entry} {rest : List Entry}
    → Distinct es
    → split_back es ≡ some (last, rest)
    → (find_key last.key es ≡ some last) × (rest ≡ remove_key last.key es)
unfolding find_key remove_key split_back
split_back-remove_key [] d h = cc
split_back-remove_key (x ∷ es) {last} {rest} d h = elim (Option-cases (split_back es)) [
  | inl e ↦ ground (arith, split_back-eq-none es e)
  | inr ((l, r), e) ↦
      ground
        (arith, split_back-remove_key es {last = l} {rest = r} d.2 e, find_key-key l.key es {e = l})
]

pub find_element-remove_key_self :
    (k : Bytes) (es : List Entry) {e : Entry}
    → Distinct es
    → find_key k es ≡ some e
    → find_element e.element (remove_key k es) ≡ none
unfolding find_key find_element remove_key
find_element-remove_key_self k [] d h = cc
find_element-remove_key_self k (x ∷ es) {e} d h = ground (
  arith,
  find_element-remove_key_self k es {e = e} d.2,
  remove_key_absent k es,
  find_element-of_find_key k es {e = e} d.2,
)
