-- ===== src/Http/Text.antt =====
-- The headers of handler_cache.go, with what it uses of strings, strconv and encoding/base64.
-- White space beyond ASCII is left aside.
use cache_grid.Base.{
  ℕ, ◌+◌, ◌-◌, ◌*◌, ◌/◌, ◌%◌, ◌^◌, Bytes, List, [], ◌∷◌, Option, none, some, Bool, true, false,
  ◌&&◌, ◌||◌, ltb, leb, ◌==◌, if◌then◌else◌,
}
use mathlib.Core.List.{reverse}
use cache_grid.Base.Int.{ℤ, pos, negsuc, sub_ℕ, wrap}

abbrev pub is_digit : ℕ → Bool
is_digit c = leb b'0' c && leb c b'9'

-- Decimal digits behind the number `n`.
unfoldable pub scan_digits : Bytes → ℕ → Option ℕ
scan_digits [] n = some n
scan_digits (c ∷ s) n =
    let rest = scan_digits s (n * 10 + (c - b'0')) in if is_digit c then rest else none

unfoldable pub scan_number : Bytes → Option ℕ
unfolding scan_digits
scan_number [] = none
scan_number (c ∷ s) = scan_digits (c ∷ s) 0

-- A number with its sign, in the range of an int64.
unfoldable pub signed : Bool → Option ℕ → Option ℤ
signed minus none = none
signed true (some n) = if leb n (2 ^ 63) then some (sub_ℕ 0 n) else none
signed false (some n) = if ltb n (2 ^ 63) then some (pos n) else none

-- `strconv.Atoi`.
unfoldable pub atoi : Bytes → Option ℤ
unfolding scan_number signed
atoi [] = none
atoi (c ∷ s) =
    if c == b'-'
    then signed true (scan_number s)
    else if c == b'+'
    then signed false (scan_number s)
    else signed false (scan_number (c ∷ s))

-- `time.Duration(sec) * time.Second`.
unfoldable pub in_seconds : ℤ → ℤ
unfolding wrap
in_seconds (pos n) = wrap (n * 1000000000)
in_seconds (negsuc n) = wrap (2 ^ 64 - ((n + 1) * 1000000000) % 2 ^ 64)

-- `parse_duration` is `time.ParseDuration`.
unfoldable pub parse_ttl : (Bytes → Option ℤ) → Bytes → ℤ
unfolding atoi in_seconds
parse_ttl parse_duration [] = pos 0
parse_ttl parse_duration (c ∷ s) = elim (parse_duration (c ∷ s)) [
  | some d ↦ d
  | none ↦ elim (atoi (c ∷ s)) [ some sec ↦ in_seconds sec | none ↦ pos 0 ]
]

abbrev pub is_space : ℕ → Bool
is_space c = (c == 32) || (leb 9 c && leb c 13)

unfoldable pub trim_left : Bytes → Bytes
trim_left [] = []
trim_left (c ∷ s) = let rest = trim_left s in if is_space c then rest else c ∷ s

unfoldable pub trim_space : Bytes → Bytes
unfolding trim_left
trim_space s = reverse (trim_left (reverse (trim_left s)))

-- `strings.Split(s, ",")`.
unfoldable pub split_commas : Bytes → List Bytes
split_commas [] = [] ∷ []
split_commas (c ∷ s) =
    let rest = split_commas s in
    if c == b',' then [] ∷ rest else elim rest [ [] ↦ (c ∷ []) ∷ [] | p ∷ ps ↦ (c ∷ p) ∷ ps ]

-- The loop over the parts.
unfoldable pub trim_parts : List Bytes → List Bytes
unfolding trim_space
trim_parts [] = []
trim_parts (p ∷ parts) =
    let rest = trim_parts parts in elim (trim_space p) [ [] ↦ rest | c ∷ s ↦ (c ∷ s) ∷ rest ]

unfoldable pub parse_tags : Bytes → List Bytes
unfolding split_commas trim_parts
parse_tags [] = []
parse_tags (c ∷ s) = trim_parts (split_commas (c ∷ s))

-- A digit of base64.
unfoldable pub base64_digit : ℕ → ℕ
base64_digit n =
    if ltb n 26
    then b'A' + n
    else if ltb n 52
    then b'a' + (n - 26)
    else if ltb n 62
    then b'0' + (n - 52)
    else if n == 62
    then b'+'
    else b'/'

-- `base64.StdEncoding.EncodeToString`.
unfoldable pub base64 : Bytes → Bytes
unfolding base64_digit
base64 [] = []
base64 (a ∷ []) = base64_digit (a / 4) ∷ base64_digit (a % 4 * 16) ∷ b'=' ∷ b'=' ∷ []
base64 (a ∷ b ∷ []) =
    base64_digit (a / 4)
    ∷ base64_digit (a % 4 * 16 + b / 16)
    ∷ base64_digit (b % 16 * 4)
    ∷ b'='
    ∷ []
base64 (a ∷ b ∷ c ∷ s) =
    base64_digit (a / 4)
    ∷ base64_digit (a % 4 * 16 + b / 16)
    ∷ base64_digit (b % 16 * 4 + c / 64)
    ∷ base64_digit (c % 64)
    ∷ base64 s
