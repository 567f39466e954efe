-- ===== src/Shard/Entry.antt =====
-- internal/cache/entry.go. A zero `time.Time` is `none`; `element` names the entry's node in the
-- LRU list.
use cache_grid.Base.{ℕ, ◌+◌, Bytes, Option, none, some, Bool, false, ltb, if◌then◌else◌, length}
use cache_grid.Base.Int.{ℤ, pos, negsuc, sub_ℕ, ltb_ℤ}

pub record Entry : Type 0 where
  pub key : Bytes
  pub value : Bytes
  pub expires_at : Option ℕ
  pub size : ℕ
  pub element : ℕ

-- `now` is what `time.Now()` returns.
unfoldable pub is_expired : Entry → ℕ → Bool
is_expired e now = elim e.expires_at [ none ↦ false | some t ↦ ltb t now ]

-- `Entry.TTL`: -1 without an expiry, 0 once it has passed.
unfoldable pub remaining_ttl : Entry → ℕ → ℤ
remaining_ttl e now = elim e.expires_at [
  | none ↦ negsuc 0
  | some t ↦ let remaining = sub_ℕ t now in if ltb_ℤ remaining (pos 0) then pos 0 else remaining
]

unfoldable pub estimate_size : Bytes → Bytes → ℕ
estimate_size key value = length key + length value + 184
