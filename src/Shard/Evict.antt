-- ===== src/Shard/Evict.antt =====
-- `evictLocked` of internal/cache/shard.go: its loop against the longest part of the LRU list that
-- fits the limit.
use cache_grid.Base.{
  ℕ, zero, suc, ◌-◌, ◌<◌, ◌≤◌, ◌≡◌, refl, sym, ap, List, [], ◌∷◌, ◌++◌, map, some, true, leb,
  if◌then◌else◌, length, length-append, arith, Option-cases, Bool-cases, inl, inr, ltb,
}
use cache_grid.Base.Int.{ℤ, pos, pos_part, ltb_ℤ}
use mathlib.Core.List.{reverse, reverse-cons, append-nil, append_assoc}
use cache_grid.Shard.Entry.{Entry}
use cache_grid.Shard.Lru
use cache_grid.Shard.Lru.{split_back}
use cache_grid.Shard.State.{Shard, Fired, evict_oldest, evict_loop, evict_locked, over_limit}
use cache_grid.Shard.Order.{total, split_back-eq-none}
use cache_grid.Shard.Consistent.{IsConsistent}
use cache_grid.Shard.Keeps.{evict_oldest_lem, evict_oldest-elems, evict_oldest-IsConsistent}

-- The longest part at the front whose sizes sum to at most the budget.
unfoldable pub fit : ℕ → List Entry → List Entry
fit budget [] = []
fit budget (e ∷ es) =
    let rest = fit (budget - e.size) es in if leb e.size budget then e ∷ rest else []

pub fit_all : (budget : ℕ) (es : List Entry) → total es ≤ budget → fit budget es ≡ es
unfolding fit total
fit_all budget [] h = refl
fit_all budget (e ∷ es) h = ground (arith, fit_all (budget - e.size) es)

fit-append_over :
    (budget : ℕ) (es : List Entry) (last : Entry)
    → budget < total (es ++ last ∷ [])
    → fit budget (es ++ last ∷ []) ≡ fit budget es
unfolding fit total
fit-append_over budget [] last h = ground arith
fit-append_over budget (e ∷ es) last h = ground (arith, fit-append_over (budget - e.size) es last)

pub total-fit-le : (budget : ℕ) (es : List Entry) → total (fit budget es) ≤ budget
unfolding fit total
total-fit-le budget [] = omega arith
total-fit-le budget (e ∷ es) = ground (arith, total-fit-le (budget - e.size) es)

pub split_back-append :
    (es : List Entry) {last : Entry} {rest : List Entry}
    → split_back es ≡ some (last, rest)
    → es ≡ rest ++ last ∷ []
unfolding split_back
split_back-append [] h = cc
split_back-append (x ∷ es) {last} {rest} h = elim (Option-cases (split_back es)) [
  | inl e ↦ ground (arith, split_back-eq-none es e)
  | inr ((l, r), e) ↦ ground (arith, split_back-append es {last = l} {rest = r} e)
]

-- The settings of a shard stay as they are.
pub record SameSettings (s t : Shard) : Type 0 where
  pub max_size : t.max_size ≡ s.max_size
  pub on_evict : t.on_evict ≡ s.on_evict
  pub on_expire : t.on_expire ≡ s.on_expire

evict_oldest-SameSettings : (s : Shard) → SameSettings s (evict_oldest s).0
unfolding evict_oldest
evict_oldest-SameSettings s = ground arith

pub evict_loop-SameSettings : (fuel : ℕ) (s : Shard) → SameSettings s (evict_loop fuel s).0
unfolding evict_loop
evict_loop-SameSettings zero s = record { max_size = refl; on_evict = refl; on_expire = refl }
evict_loop-SameSettings (suc fuel) s =
    ground (arith, evict_oldest-SameSettings s, evict_loop-SameSettings fuel (evict_oldest s).0)

total_empty : (es : List Entry) → length es ≡ 0 → total es ≡ 0
unfolding total
total_empty [] h = refl
total_empty (e ∷ es) h = absurd (omega arith)

over_limit_lem :
    (s : Shard)
    → IsConsistent s
    → ltb_ℤ (pos 0) s.max_size ≡ true
    → over_limit s ≡ ltb (pos_part s.max_size) (total s.lru.elems)
unfolding over_limit Lru.length total
over_limit_lem s v limited = ground (arith, v.counted, total_empty s.lru.elems)

-- One round takes off an entry that does not fit.
module _ (s : Shard) (v : IsConsistent s) (limited : ltb_ℤ (pos 0) s.max_size ≡ true) where
  fit-evict_oldest :
      over_limit s ≡ true
      → (suc (length (evict_oldest s).0.lru.elems) ≡ length s.lru.elems)
        × (fit (pos_part s.max_size) (evict_oldest s).0.lru.elems
            ≡ fit (pos_part s.max_size) s.lru.elems)
  unfolding total
  fit-evict_oldest over = elim (Option-cases (split_back s.lru.elems)) [
    | inl e ↦
        absurd
          (ground (arith, over_limit_lem s v limited, ap total (split_back-eq-none s.lru.elems e)))
    | inr ((last, rest), e) ↦
        let whole = split_back-append s.lru.elems {last = last} {rest = rest} e in
        rw (evict_oldest-elems s {last = last} {rest = rest} v e, whole)
          (
            omega (arith, length-append rest (last ∷ [])),
            sym (
                fit-append_over (pos_part s.max_size) rest last
                  (ground (arith, over_limit_lem s v limited, ap total whole))),
          )
  ]

-- On a consistent shard with a positive limit, and with the length of the LRU list or more as
-- fuel, the loop of `evictLocked` leaves exactly the longest part in front whose sizes fit the
-- limit.
pub evict_loop-fit :
    (fuel : ℕ) (s : Shard)
    → IsConsistent s
    → ltb_ℤ (pos 0) s.max_size ≡ true
    → length s.lru.elems ≤ fuel
    → (evict_loop fuel s).0.lru.elems ≡ fit (pos_part s.max_size) s.lru.elems
unfolding evict_loop
evict_loop-fit zero s v limited enough =
    sym (fit_all _ s.lru.elems (omega (arith, total_empty s.lru.elems)))
evict_loop-fit (suc fuel) s v limited enough = elim (Bool-cases (over_limit s)) [
  | inr done ↦
      rw (done, evict_loop)
        (sym (fit_all _ s.lru.elems (ground (arith, over_limit_lem s v limited))))
  | inl over ↦
      rw (over, evict_loop)
        (ground (
          arith,
          fit-evict_oldest s v limited over,
          evict_oldest-SameSettings s,
          evict_loop-fit fuel (evict_oldest s).0 (evict_oldest-IsConsistent s v),
        ))
]

-- `trim` is what `evictLocked` does to the list: nothing where there is no limit.
unfoldable pub trim : ℤ → List Entry → List Entry
trim max_size es = if ltb_ℤ (pos 0) max_size then fit (pos_part max_size) es else es

pub evict_locked-trim :
    (s : Shard) → IsConsistent s → (evict_locked s).0.lru.elems ≡ trim s.max_size s.lru.elems
unfolding evict_locked trim Lru.length
evict_locked-trim s v = ground (arith, evict_loop-fit (length s.lru.elems) s v)

pub evict_locked-SameSettings : (s : Shard) → SameSettings s (evict_locked s).0
unfolding evict_locked
evict_locked-SameSettings s = ground (arith, evict_loop-SameSettings (Lru.length s.lru) s)

abbrev pub callback_of : Entry → Fired
callback_of e = (e.key, e.value)

over_limit_nonempty : (s : Shard) → over_limit s ≡ true → 0 < length s.lru.elems
unfolding over_limit Lru.length
over_limit_nonempty s h = ground arith

-- With any fuel, the loop of `evictLocked` on a consistent shard takes entries off the back of the
-- LRU list, and the callbacks, if one is set, are those of these entries, oldest first; none are
-- fired if none is set.
pub evict_loop-fired :
    (fuel : ℕ) (s : Shard)
    → IsConsistent s
    → (gone : List Entry) × (s.lru.elems ≡ (evict_loop fuel s).0.lru.elems ++ reverse gone)
      × ((evict_loop fuel s).1 ≡ (if s.on_evict then map callback_of gone else []))
unfolding evict_loop
evict_loop-fired zero s v = ([], sym (append-nil s.lru.elems), ground arith)
evict_loop-fired (suc fuel) s v = elim (Bool-cases (over_limit s)) [
  | inr done ↦ rw (done, evict_loop) ([], sym (append-nil s.lru.elems), ground arith)
  | inl over ↦ elim (Option-cases (split_back s.lru.elems)) [
    | inl e ↦
        absurd
          (omega (arith, ap length (split_back-eq-none s.lru.elems e), over_limit_nonempty s over))
    | inr ((last, rest), e) ↦
        let (gone, whole, fired) =
          evict_loop-fired fuel (evict_oldest s).0 (evict_oldest-IsConsistent s v) in
        rw (over, evict_loop)
          (
            last ∷ gone,
            ground (
              arith,
              split_back-append s.lru.elems {last = last} {rest = rest} e,
              evict_oldest-elems s {last = last} {rest = rest} v e,
              reverse-cons last gone,
              append_assoc (evict_loop fuel (evict_oldest s).0).0.lru.elems (reverse gone)
                  (last ∷ []),
            ),
            ground (
              arith,
              evict_oldest_lem s {last = last} {rest = rest} v e,
              evict_oldest-SameSettings s,
            ),
          )
  ]
]
