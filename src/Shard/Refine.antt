-- ===== src/Shard/Refine.antt =====
-- The methods of internal/cache/shard.go do what the list of cells in order of use says.
use cache_grid.Base.{
  ℕ, ◌-◌, ◌≡◌, refl, sym, ◌∙◌, ap, Bytes, List, [], ◌∷◌, map, Option, none, some, arith, All,
  Option-cases, inl, inr,
}
use mathlib.Core.Option
use cache_grid.Base.Int.{ℤ, pos_part}
use cache_grid.Shard.Entry.{Entry, is_expired}
use cache_grid.Shard.State.{Shard, remove_locked, evict_locked}
use cache_grid.Shard.Lru.{move_to_front, push_front}
use cache_grid.Shard.Ops
use cache_grid.Shard.Ops.{find, store_entry, put_front, expiry}
use cache_grid.Shard.Order.{find_key, remove_key, remove_key_absent}
use cache_grid.Shard.Consistent.{IsConsistent, IsMeasured, remove-elems}
use cache_grid.Shard.Keeps.{
  move_to_front_lem, drop_existing, drop_existing-IsConsistent, find-drop_existing,
  put_front-IsConsistent,
}
use cache_grid.Shard.Evict.{fit, trim, evict_locked-trim}
use cache_grid.Shard.Methods.{store_entry-forget_existing}
use cache_grid.Shard.Spec.{
  cell_of, cells, has_passed, recall, holds, forget, fitting, within_limit, use_cell, store_cell,
}

recall-map :
    (k : Bytes) (es : List Entry) → recall k (map cell_of es) ≡ Option.map cell_of (find_key k es)
unfolding recall find_key
recall-map k [] = refl
recall-map k (e ∷ es) = ground (arith, recall-map k es)

forget-map :
    (k : Bytes) (es : List Entry) → forget k (map cell_of es) ≡ map cell_of (remove_key k es)
unfolding forget remove_key
forget-map k [] = refl
forget-map k (e ∷ es) = ground (arith, forget-map k es)

fitting-map :
    (budget : ℕ) (es : List Entry)
    → All IsMeasured es
    → fitting budget (map cell_of es) ≡ map cell_of (fit budget es)
unfolding fitting fit
fitting-map budget [] a = refl
fitting-map budget (e ∷ es) a = ground (arith, fitting-map (budget - e.size) es a.1)

has_passed-cell_of : (e : Entry) (now : ℕ) → has_passed (cell_of e) now ≡ is_expired e now
unfolding has_passed is_expired
has_passed-cell_of e now = refl

pub recall-cells :
    (s : Shard) (k : Bytes) → IsConsistent s → recall k (cells s) ≡ Option.map cell_of (find s k)
unfolding cells
recall-cells s k v = recall-map k s.lru.elems ∙ ap (Option.map cell_of) (sym (v.linked k))

cells-remove_locked :
    (s : Shard) (key : Bytes) (e : Entry)
    → IsConsistent s
    → find s key ≡ some e
    → cells (remove_locked s key e) ≡ forget key (cells s)
unfolding cells remove_locked
cells-remove_locked s key e v found =
    ground (arith, remove-elems s key {e = e} v found, forget-map key s.lru.elems)

cells-touch :
    (s : Shard) (key : Bytes) (e : Entry)
    → IsConsistent s
    → find s key ≡ some e
    → cells (record s { lru = move_to_front s.lru e.element }) ≡ cell_of e ∷ forget key (cells s)
unfolding cells
cells-touch s key e v found =
    ground (arith, move_to_front_lem s key {e = e} v found, forget-map key s.lru.elems)

forget_absent :
    (s : Shard) (key : Bytes) → IsConsistent s → find s key ≡ none → forget key (cells s) ≡ cells s
unfolding cells
forget_absent s key v absent =
    forget-map key s.lru.elems
    ∙ ap (map cell_of) (remove_key_absent key s.lru.elems (sym (v.linked key) ∙ absent))

cells-drop_existing :
    (s : Shard) (key : Bytes) → IsConsistent s → cells (drop_existing s key) ≡ forget key (cells s)
unfolding drop_existing
cells-drop_existing s key v = elim (Option-cases (find s key)) [
  | inl e ↦ rw (e, drop_existing) (sym (forget_absent s key v e))
  | inr (x, e) ↦ rw (e, drop_existing) (cells-remove_locked s key x v e)
]

-- `Get` on a consistent shard does what the list of cells in order of use says: a hit returns the
-- value and becomes the most recent cell, an expired cell is forgotten, and a miss changes
-- nothing.
pub get-use_cell :
    (s : Shard) (key : Bytes) (now : ℕ)
    → IsConsistent s
    → (cells (Ops.get s key now).0 ≡ (use_cell (cells s) key now).0)
      × ((Ops.get s key now).1 ≡ (use_cell (cells s) key now).1)
unfolding Ops.get use_cell
get-use_cell s key now v = elim (Option-cases (find s key)) [
  | inl e ↦ ground (arith, recall-cells s key v)
  | inr (x, e) ↦ ground (
    arith,
    recall-cells s key v,
    has_passed-cell_of x now,
    cells-remove_locked s key x v e,
    cells-touch s key x v e,
  )
]

-- `Delete` on a consistent shard forgets the cell of the key, and says whether there was one.
pub delete-forget :
    (s : Shard) (key : Bytes)
    → IsConsistent s
    → (cells (Ops.delete s key).0 ≡ forget key (cells s))
      × ((Ops.delete s key).1 ≡ holds key (cells s))
unfolding Ops.delete holds
delete-forget s key v = elim (Option-cases (find s key)) [
  | inl e ↦ ground (arith, recall-cells s key v, forget_absent s key v e)
  | inr (x, e) ↦ ground (arith, recall-cells s key v, cells-remove_locked s key x v e)
]

evict_locked-within_limit :
    (s : Shard) → IsConsistent s → cells (evict_locked s).0 ≡ within_limit s.max_size (cells s)
unfolding cells within_limit trim
evict_locked-within_limit s v =
    ground (arith, evict_locked-trim s v, fitting-map (pos_part s.max_size) s.lru.elems v.measured)

cells-put_front :
    (s : Shard) (key value : Bytes) (expires_at : Option ℕ)
    → cells (put_front s key value expires_at)
      ≡ record { key = key; value = value; expires_at = expires_at } ∷ cells s
unfolding cells put_front push_front
cells-put_front s key value expires_at = refl

max_size-put_front :
    (s : Shard) (key value : Bytes) (expires_at : Option ℕ)
    → (put_front (drop_existing s key) key value expires_at).max_size ≡ s.max_size
unfolding put_front drop_existing remove_locked
max_size-put_front s key value expires_at = ground arith

-- `Set` and `Incr` store a cell in front and keep the cells in front that fit the limit.
pub store_entry-store_cell :
    (s : Shard) (key value : Bytes) (expires_at : Option ℕ)
    → IsConsistent s
    → cells (store_entry (drop_existing s key) key value expires_at).0
      ≡ store_cell s.max_size
          (cells s)
          (record { key = key; value = value; expires_at = expires_at })
unfolding store_entry store_cell
store_entry-store_cell s key value expires_at v =
    let d = drop_existing s key in
    let put =
      put_front-IsConsistent d key value expires_at (drop_existing-IsConsistent s key v)
        (find-drop_existing s key) in
    evict_locked-within_limit (put_front d key value expires_at) put
    ∙ ground (
      arith,
      max_size-put_front s key value expires_at,
      cells-put_front d key value expires_at,
      cells-drop_existing s key v,
    )

-- `Set` on a consistent shard puts the new cell in front of those of other keys and, under a
-- positive limit, keeps the longest part in front whose sizes fit it.
pub set-store_cell :
    (s : Shard) (key value : Bytes) (ttl : ℤ) (now : ℕ)
    → IsConsistent s
    → cells (Ops.set s key value ttl now).0
      ≡ store_cell s.max_size
          (cells s)
          (record { key = key; value = value; expires_at = expiry ttl now })
unfolding Ops.set
set-store_cell s key value ttl now v =
    rw (store_entry-forget_existing s key value (expiry ttl now))
      (store_entry-store_cell s key value (expiry ttl now) v)
