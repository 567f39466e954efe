-- ===== src/Shard/Sums.antt =====
-- A series of `Incr` calls on one key of internal/cache/shard.go.
use cache_grid.Base.{
  ℕ, ◌≤◌, ◌≡◌, ◌⊎◌, refl, All, Bytes, List, [], ◌∷◌, Option, none, some, false, arith, Option-cases,
  inl, inr,
}
use cache_grid.Base.Int.{ℤ, pos, ltb_ℤ}
use cache_grid.Shard.Codec.{Msgpack, IsFaithful, add64}
use cache_grid.Shard.Entry.{Entry, is_expired}
use cache_grid.Shard.State.{Shard, remove_locked}
use cache_grid.Shard.Ops
use cache_grid.Shard.Ops.{find, store_entry, put_front, expiry, preserved_ttl}
use cache_grid.Shard.Evict.{SameSettings, evict_locked-SameSettings}
use cache_grid.Shard.Methods
use cache_grid.Shard.Spec.{Cell, cell_of, cells, recall, store_cell, within_limit}
use cache_grid.Shard.Refine.{recall-cells}
use cache_grid.Shard.Valid.{IsValid, Step-IsValid, incr}
use cache_grid.Shard.Counter.{counter_cell, incr_live, incr_missing}

store_entry-SameSettings :
    (s t : Shard) (key value : Bytes) (expires_at : Option ℕ)
    → SameSettings s t
    → SameSettings s (store_entry t key value expires_at).0
unfolding store_entry put_front
store_entry-SameSettings s t key value expires_at same =
    ground (arith, evict_locked-SameSettings (put_front t key value expires_at))

remove_locked-SameSettings :
    (s t : Shard) (key : Bytes) (e : Entry)
    → SameSettings s t
    → SameSettings s (remove_locked t key e)
unfolding remove_locked
remove_locked-SameSettings s t key e same = ground arith

pub incr-SameSettings :
    (m : Msgpack) (s : Shard) (key : Bytes) (delta : ℕ) (ttl : ℤ) (t₁ t₂ t₃ : ℕ)
    → t₁ ≤ t₂
    → SameSettings s (Ops.incr m s key delta ttl t₁ t₂ t₃).0
incr-SameSettings m s key delta ttl t₁ t₂ t₃ h =
    Methods.keeps_incr (SameSettings s) (λ t k e p _. remove_locked-SameSettings s t k e p)
      (λ t k e p _. record {
        max_size = p.max_size;
        on_evict = p.on_evict;
        on_expire = p.on_expire;
      })
      (λ t k w x p _. store_entry-SameSettings s t k w x p) m s key delta ttl t₁ t₂ t₃ h
      (record { max_size = refl; on_evict = refl; on_expire = refl })

-- The key holds the number, for ever.
abbrev pub HoldsCount : Msgpack → Shard → Bytes → ℕ → Type 0
HoldsCount m s key n =
    (e : Entry) × (find s key ≡ some e) × (e.expires_at ≡ none) × (m.unmarshal e.value ≡ some n)

found_cell :
    (s : Shard) (key : Bytes) (c : Cell)
    → IsValid s
    → recall key (cells s) ≡ some c
    → (e : Entry) × (find s key ≡ some e) × (cell_of e ≡ c)
found_cell s key c v h = elim (Option-cases (find s key)) [
  | inl e ↦ absurd (ground (arith, recall-cells s key v.consistent))
  | inr (x, e) ↦ (x, e, ground (arith, recall-cells s key v.consistent))
]

recall-store_cell_self :
    (limit : ℤ) (cs : List Cell) (c : Cell)
    → ltb_ℤ (pos 0) limit ≡ false
    → recall c.key (store_cell limit cs c) ≡ some c
unfolding recall store_cell within_limit
recall-store_cell_self limit cs c unlimited = ground arith

module _ (m : Msgpack) (faithful : IsFaithful m) (key : Bytes) where
  stored_count :
      (s t : Shard) (b : Bytes) (n now : ℕ) (ttl : ℤ)
      → IsValid t
      → ltb_ℤ (pos 0) s.max_size ≡ false
      → ltb_ℤ (pos 0) ttl ≡ false
      → m.unmarshal b ≡ some n
      → cells t ≡ store_cell s.max_size (cells s) (counter_cell key b ttl now)
      → HoldsCount m t key n
  unfolding expiry
  stored_count s t b n now ttl v unlimited permanent good stored =
      let c = counter_cell key b ttl now in
      let (e, found, same) =
        found_cell t key c v
          (ground (arith, recall-store_cell_self s.max_size (cells s) c unlimited)) in
      (e, found, ground arith, ground arith)

-- A call of `Incr`: its delta, and its readings of the clock.
pub record Call : Type 0 where
  pub delta : ℕ
  pub t₁ : ℕ
  pub t₂ : ℕ
  pub t₃ : ℕ

abbrev pub InOrder : Call → Type 0
InOrder c = c.t₁ ≤ c.t₂

abbrev pub call : Msgpack → Shard → Bytes → ℤ → Call → Ops.Incremented
call m s key ttl c = Ops.incr m s key c.delta ttl c.t₁ c.t₂ c.t₃

-- The shard after a series of calls, and their results.
unfoldable pub series : Msgpack → Bytes → ℤ → List Call → Shard → Shard × List (Option ℕ)
series m key ttl [] s = (s, [])
series m key ttl (c ∷ cs) s =
    let (s', results) = series m key ttl cs (call m s key ttl c).0 in
    (s', (call m s key ttl c).1 ∷ results)

unfoldable pub running_sums : ℕ → List Call → List (Option ℕ)
running_sums n [] = []
running_sums n (c ∷ cs) = some (add64 n c.delta) ∷ running_sums (add64 n c.delta) cs

unfoldable pub last_sum : ℕ → List Call → ℕ
last_sum n [] = n
last_sum n (c ∷ cs) = last_sum (add64 n c.delta) cs

-- The key is missing, or holds the number.
abbrev pub Counts : Msgpack → Shard → Bytes → ℕ → Type 0
Counts m s key n = ((find s key ≡ none) × (n ≡ 0)) ⊎ HoldsCount m s key n

module _ (m : Msgpack) (faithful : IsFaithful m) (key : Bytes) (ttl : ℤ)
    (permanent : ltb_ℤ (pos 0) ttl ≡ false) where
  step :
      (s : Shard) (n : ℕ) (c : Call)
      → InOrder c
      → IsValid s
      → ltb_ℤ (pos 0) s.max_size ≡ false
      → Counts m s key n
      → ((call m s key ttl c).1 ≡ some (add64 n c.delta))
        × HoldsCount m (call m s key ttl c).0 key (add64 n c.delta)
  unfolding preserved_ttl is_expired
  step s n c order v unlimited (inl (absent, zero_count)) =
      let (b, good, result, stored) =
        incr_missing m faithful s key c.delta v ttl c.t₁ c.t₂ c.t₃ absent in
      let v' = Step-IsValid (incr m s key c.delta ttl c.t₁ c.t₂ c.t₃ order) v in
      rw zero_count
        (result, stored_count m faithful key s _ b _ c.t₃ ttl v' unlimited permanent good stored)
  step s n c order v unlimited (inr (e, found, forever, value)) =
      let (b, good, result, stored) =
        incr_live m faithful s key c.delta v ttl c.t₁ c.t₂ c.t₃ e n found (ground arith) value in
      let v' = Step-IsValid (incr m s key c.delta ttl c.t₁ c.t₂ c.t₃ order) v in
      (
        result,
        stored_count m faithful key s _ b _ c.t₃ (preserved_ttl e c.t₂) v' unlimited (ground arith)
            good stored,
      )

  -- In a valid shard with no limit, over a faithful msgpack, a series of `Incr` calls with no
  -- lifetime on a key that is missing or holds a permanent counter answers each call with the
  -- 64-bit sum so far, and leaves the last sum in the key. Each call reads the clock in order.
  pub series-running_sums :
      (cs : List Call) (s : Shard) (n : ℕ)
      → All InOrder cs
      → IsValid s
      → ltb_ℤ (pos 0) s.max_size ≡ false
      → Counts m s key n
      → ((series m key ttl cs s).1 ≡ running_sums n cs)
        × Counts m (series m key ttl cs s).0 key (last_sum n cs)
  unfolding series running_sums last_sum
  series-running_sums [] s n o v unlimited counts = (refl, counts)
  series-running_sums (c ∷ cs) s n o v unlimited counts =
      let (result, held) = step s n c o.0 v unlimited counts in
      let same = incr-SameSettings m s key c.delta ttl c.t₁ c.t₂ c.t₃ o.0 in
      let rest =
        series-running_sums cs (call m s key ttl c).0 (add64 n c.delta) o.1
          (Step-IsValid (incr m s key c.delta ttl c.t₁ c.t₂ c.t₃ o.0) v)
          (ground (arith, same.max_size)) (inr held) in
      (ground (arith, result, rest.0), rest.1)
