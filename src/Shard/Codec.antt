-- ===== src/Shard/Codec.antt =====
-- internal/cache/serializer.go at an int64: `Serialize` and `Deserialize` call msgpack, which is
-- not part of the repository and enters as a parameter. An int64 is its 64-bit pattern.
use cache_grid.Base.{ℕ, ◌+◌, ◌%◌, ◌^◌, ◌<◌, ◌≡◌, Bytes, Option, some}

pub record Msgpack : Type 0 where
  pub marshal : ℕ → Option Bytes
  pub unmarshal : Bytes → Option ℕ

-- What msgpack documents of an int64: it is written, and read back as it was.
pub record IsFaithful (m : Msgpack) : Type 0 where
  pub written :
      (n : ℕ) → n < 2 ^ 64 → (b : Bytes) × (m.marshal n ≡ some b) × (m.unmarshal b ≡ some n)
  pub in_range : (b : Bytes) (n : ℕ) → m.unmarshal b ≡ some n → n < 2 ^ 64

-- Addition of int64 wraps around.
unfoldable pub add64 : ℕ → ℕ → ℕ
add64 a b = (a + b) % 2 ^ 64
