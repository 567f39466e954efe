-- ===== src/Pebble/Format.antt =====
-- `encode`, `decode` and `isExpired` of store_pebble.go. An `expiresAtNano`, an int64, is its 64-bit
-- pattern; a clock reading is `time.Now().UnixNano()`.
use cache_grid.Base.{
  ℕ, zero, suc, ◌+◌, ◌*◌, ◌/◌, ◌%◌, ◌^◌, ◌<◌, ◌≡◌, refl, ap, Bytes, [], ◌∷◌, ◌++◌, Bool, ◌&&◌, ◌||◌,
  not, ltb, leb, ◌==◌, if◌then◌else◌, arith,
}
use cache_grid.Base.Int.{ℤ, pos, pos_part, ltb_ℤ}

-- `binary.BigEndian.PutUint64`, for any number of bytes.
unfoldable pub put_big_endian : ℕ → ℕ → Bytes
put_big_endian zero n = []
put_big_endian (suc k) n = put_big_endian k (n / 256) ++ (n % 256) ∷ []

-- `binary.BigEndian.Uint64`, after what was read so far.
unfoldable pub read_big_endian : ℕ → Bytes → ℕ
read_big_endian acc [] = acc
read_big_endian acc (b ∷ bs) = read_big_endian (acc * 256 + b) bs

-- The expiry that `encode` writes: 0 for no expiry.
unfoldable pub expires_at_nano : ℤ → ℕ → ℕ
expires_at_nano ttl now = if ltb_ℤ (pos 0) ttl then (now + pos_part ttl) % 2 ^ 64 else 0

unfoldable pub encode : Bytes → ℤ → ℕ → Bytes
unfolding put_big_endian expires_at_nano
encode value ttl now = put_big_endian 8 (expires_at_nano ttl now) ++ value

-- Fewer than 8 bytes are no value and no expiry.
unfoldable pub decode : Bytes → Bytes × ℕ
unfolding read_big_endian
decode (a ∷ b ∷ c ∷ d ∷ e ∷ f ∷ g ∷ h ∷ value) =
    (value, read_big_endian 0 (a ∷ b ∷ c ∷ d ∷ e ∷ f ∷ g ∷ h ∷ []))
decode _ = ([], 0)

-- A pattern from 2⁶³ on is negative.
unfoldable pub is_negative : ℕ → Bool
is_negative at = leb (2 ^ 63) at

unfoldable pub is_expired : ℕ → ℕ → Bool
unfolding is_negative
is_expired at now = not (at == 0) && (is_negative at || ltb at now)

read_big_endian-append :
    (bs : Bytes) (acc b : ℕ) → read_big_endian acc (bs ++ b ∷ []) ≡ read_big_endian acc bs * 256 + b
unfolding read_big_endian
read_big_endian-append [] acc b = refl
read_big_endian-append (x ∷ bs) acc b = read_big_endian-append bs (acc * 256 + x) b

-- The number fits so many bytes.
abbrev FitsBytes : ℕ → ℕ → Type 0
FitsBytes zero n = n ≡ 0
FitsBytes (suc k) n = FitsBytes k (n / 256)

read-put_big_endian : (k n : ℕ) → FitsBytes k n → read_big_endian 0 (put_big_endian k n) ≡ n
unfolding read_big_endian put_big_endian
read-put_big_endian zero n fits = omega arith
read-put_big_endian (suc k) n fits = omega (
  arith,
  read_big_endian-append (put_big_endian k (n / 256)) 0 (n % 256),
  read-put_big_endian k (n / 256) fits,
)

expires_at_nano-lt : (ttl : ℤ) (now : ℕ) → expires_at_nano ttl now < 2 ^ 64
unfolding expires_at_nano
expires_at_nano-lt ttl now = ground arith

fits_bytes : (n : ℕ) → n < 2 ^ 64 → FitsBytes 8 n
fits_bytes n h = omega arith

-- What `encode` writes, `decode` reads: the value, and its expiry.
pub decode-encode :
    (value : Bytes) (ttl : ℤ) (now : ℕ)
    → decode (encode value ttl now) ≡ (value, expires_at_nano ttl now)
unfolding decode encode put_big_endian
decode-encode value ttl now =
    ap (λ at. (value, at))
      (read-put_big_endian 8 (expires_at_nano ttl now)
        (fits_bytes (expires_at_nano ttl now) (expires_at_nano-lt ttl now)))
