-- ===== src/Shard/Counter.antt =====
-- `Incr` of internal/cache/shard.go, over a faithful msgpack.
use cache_grid.Base.{
  ℕ, ◌+◌, ◌-◌, ◌^◌, ◌<◌, ◌≤◌, ◌≡◌, refl, Bytes, [], none, some, true, false, ltb, if◌then◌else◌, ap,
  ◌∙◌, arith,
}
use cache_grid.Base.Int.{ℤ}
use cache_grid.Shard.Codec.{Msgpack, IsFaithful, add64}
use cache_grid.Shard.Entry.{Entry, is_expired}
use cache_grid.Shard.State.{Shard, remove_locked}
use cache_grid.Shard.Ops
use cache_grid.Shard.Ops.{find, store_entry, expiry, preserved_ttl, write_counter}
use cache_grid.Shard.Keeps.{drop_existing}
use cache_grid.Shard.Spec.{Cell, cells, store_cell}
use cache_grid.Shard.Refine.{store_entry-store_cell}
use cache_grid.Shard.Methods.{is_expired_mono}
use cache_grid.Shard.Valid.{IsValid}

-- The cell that an increment writes.
abbrev pub counter_cell : Bytes → Bytes → ℤ → ℕ → Cell
counter_cell key value ttl now = record { key = key; value = value; expires_at = expiry ttl now }

pub add64-lt : (a b : ℕ) → add64 a b < 2 ^ 64
unfolding add64
add64-lt a b = omega arith

-- Bytes that are no int64 are an error, and the shard stays as it is.
pub incr_not_a_counter :
    (m : Msgpack) (s : Shard) (key : Bytes) (delta : ℕ) (ttl : ℤ) (t₁ t₂ t₃ : ℕ) (e : Entry)
    → find s key ≡ some e
    → is_expired e t₁ ≡ false
    → m.unmarshal e.value ≡ none
    → Ops.incr m s key delta ttl t₁ t₂ t₃ ≡ (s, none, [])
unfolding Ops.incr
incr_not_a_counter m s key delta ttl t₁ t₂ t₃ e found live bad =
    rw (found, Ops.incr) (rw live (rw bad refl))

module _ (m : Msgpack) (faithful : IsFaithful m) (s : Shard) (key : Bytes) (delta : ℕ)
    (v : IsValid s) where
  write_counter_lem :
      (s' : Shard) (current : ℕ) (ttl : ℤ) (now : ℕ)
      → drop_existing s key ≡ s'
      → (b : Bytes) × (m.unmarshal b ≡ some (add64 current delta))
        × ((write_counter m s' key current delta ttl now).1 ≡ some (add64 current delta))
        × (cells (write_counter m s' key current delta ttl now).0
            ≡ store_cell s.max_size (cells s) (counter_cell key b ttl now))
  unfolding write_counter
  write_counter_lem s' current ttl now dropped =
      let (b, written, back) = faithful.written (add64 current delta) (add64-lt current delta) in
      (
        b,
        back,
        ground (arith, written),
        ground
            (arith, written, dropped, store_entry-store_cell s key b (expiry ttl now) v.consistent),
      )

  -- `Incr` of a live counter on a valid shard, over a faithful msgpack, returns the 64-bit sum and
  -- stores bytes that read as it in the most recent cell, with the lifetime that is left of the
  -- old one.
  pub incr_live :
      (ttl : ℤ) (t₁ t₂ t₃ : ℕ) (e : Entry) (n : ℕ)
      → find s key ≡ some e
      → is_expired e t₁ ≡ false
      → m.unmarshal e.value ≡ some n
      → (b : Bytes) × (m.unmarshal b ≡ some (add64 n delta))
        × ((Ops.incr m s key delta ttl t₁ t₂ t₃).1 ≡ some (add64 n delta))
        × (cells (Ops.incr m s key delta ttl t₁ t₂ t₃).0
            ≡ store_cell s.max_size (cells s) (counter_cell key b (preserved_ttl e t₂) t₃))
  unfolding Ops.incr drop_existing
  incr_live ttl t₁ t₂ t₃ e n found live good =
      rw (found, Ops.incr)
        (rw live (
          rw good (
            write_counter_lem (remove_locked s key e) n (preserved_ttl e t₂) t₃
              (rw (found, drop_existing)))))

  pub incr_missing :
      (ttl : ℤ) (t₁ t₂ t₃ : ℕ)
      → find s key ≡ none
      → (b : Bytes) × (m.unmarshal b ≡ some (add64 0 delta))
        × ((Ops.incr m s key delta ttl t₁ t₂ t₃).1 ≡ some (add64 0 delta))
        × (cells (Ops.incr m s key delta ttl t₁ t₂ t₃).0
            ≡ store_cell s.max_size (cells s) (counter_cell key b ttl t₃))
  unfolding Ops.incr drop_existing
  incr_missing ttl t₁ t₂ t₃ absent =
      rw (absent, Ops.incr) (write_counter_lem s 0 ttl t₃ (rw (absent, drop_existing)))

  pub incr_expired :
      (ttl : ℤ) (t₁ t₂ t₃ : ℕ) (e : Entry)
      → find s key ≡ some e
      → is_expired e t₁ ≡ true
      → t₁ ≤ t₂
      → (b : Bytes) × (m.unmarshal b ≡ some (add64 0 delta))
        × ((Ops.incr m s key delta ttl t₁ t₂ t₃).1 ≡ some (add64 0 delta))
        × (cells (Ops.incr m s key delta ttl t₁ t₂ t₃).0
            ≡ store_cell s.max_size (cells s) (counter_cell key b ttl t₃))
  unfolding Ops.incr drop_existing
  incr_expired ttl t₁ t₂ t₃ e found old h =
      rw (found, Ops.incr)
        (rw (old, is_expired_mono e t₁ t₂ h old)
          (write_counter_lem (remove_locked s key e) 0 ttl t₃ (rw (found, drop_existing))))

expiry-preserved_ttl :
    (e : Entry) (t₂ t₃ at : ℕ)
    → e.expires_at ≡ some at
    → t₂ ≤ t₃
    → expiry (preserved_ttl e t₂) t₃ ≡ (if ltb t₂ at then some (at + (t₃ - t₂)) else none)
unfolding expiry preserved_ttl
expiry-preserved_ttl e t₂ t₃ at h le = ground arith

-- On a valid shard, over a faithful msgpack, for a counter that expires at `at`, where the first
-- reading of the clock, `t₁`, is not past that: `Incr` answers with the 64-bit sum and writes it the
-- way `Set` does, in front and then cut down to the limit. Where `at` is after the second reading, `t₂`, the counter expires later than before by what
-- passed until the third, `t₃`. Where `at` is `t₂` or before it, the counter has no expiry any more,
-- whatever the default TTL.
pub incr_ttl_lem :
    (m : Msgpack) (s : Shard) (key : Bytes) (delta : ℕ) (default_ttl : ℤ) (t₁ t₂ t₃ at n : ℕ)
    (e : Entry)
    → IsFaithful m
    → IsValid s
    → find s key ≡ some e
    → e.expires_at ≡ some at
    → t₁ ≤ at
    → t₂ ≤ t₃
    → m.unmarshal e.value ≡ some n
    → let (s', result, _) = Ops.incr m s key delta default_ttl t₁ t₂ t₃ in
      (b : Bytes) × (m.unmarshal b ≡ some (add64 n delta))
      × (result ≡ some (add64 n delta))
      × (cells s'
          ≡ store_cell s.max_size (cells s) (record {
            key = key;
            value = b;
            expires_at = if ltb t₂ at then some (at + (t₃ - t₂)) else none;
          }))
unfolding is_expired
incr_ttl_lem m s key delta default_ttl t₁ t₂ t₃ at n e faithful v found expires le₁ le₂ good =
    let (b, stored, result, cells') =
      incr_live m faithful s key delta v default_ttl t₁ t₂ t₃ e n found (ground arith) good in
    let kept = expiry-preserved_ttl e t₂ t₃ at expires le₂ in
    (
      b,
      stored,
      result,
      cells'
          ∙ ap
              (λ x.
                store_cell s.max_size (cells s) (record { key = key; value = b; expires_at = x }))
              kept,
    )
