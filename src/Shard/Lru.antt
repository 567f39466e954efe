-- ===== src/Shard/Lru.antt =====
-- internal/cache/eviction.go over Go's container/list. The list holds the entries, most recently
-- used first; a `*list.Element` is a number that `push_front` draws from `next`. As in
-- container/list, an element that is not in the list is left alone.
use cache_grid.Base.{ℕ, suc, List, [], ◌∷◌, Option, none, some, ite, ℕ_discrete, length as count}
use cache_grid.Shard.Entry.{Entry}

pub record LruList : Type 0 where
  pub elems : List Entry
  pub next : ℕ

unfoldable pub new_lru_list : LruList
new_lru_list = record { elems = []; next = 0 }

-- The new element is the entry's own from then on.
unfoldable pub push_front : LruList → Entry → LruList × ℕ
push_front l e =
    (record { elems = record e { element = l.next } ∷ l.elems; next = suc l.next }, l.next)

unfoldable pub find_element : ℕ → List Entry → Option Entry
find_element el [] = none
find_element el (e ∷ es) = ite (ℕ_discrete el e.element) (some e) (find_element el es)

unfoldable pub unlink : ℕ → List Entry → List Entry
unlink el [] = []
unlink el (e ∷ es) = ite (ℕ_discrete el e.element) es (e ∷ unlink el es)

unfoldable pub move_to_front : LruList → ℕ → LruList
move_to_front l el = elim (find_element el l.elems) [
  | none ↦ l
  | some e ↦ record l { elems = e ∷ unlink el l.elems }
]

unfoldable pub remove : LruList → ℕ → LruList
remove l el = record l { elems = unlink el l.elems }

-- The last entry, and the others.
unfoldable pub split_back : List Entry → Option (Entry × List Entry)
split_back [] = none
split_back (e ∷ es) = elim (split_back es) [
  | none ↦ some (e, [])
  | some (last, rest) ↦ some (last, e ∷ rest)
]

unfoldable pub remove_oldest : LruList → Option Entry × LruList
remove_oldest l = elim (split_back l.elems) [
  | none ↦ (none, l)
  | some (oldest, rest) ↦ (some oldest, record l { elems = rest })
]

unfoldable pub length : LruList → ℕ
length l = count l.elems
