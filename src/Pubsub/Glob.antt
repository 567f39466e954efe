-- ===== src/Pubsub/Glob.antt =====
-- `matches` of internal/pubsub/subscription.go, with Go's `path.Match`: chunks between stars, of
-- which each is matched at the first place that serves. A loop that shortens its text has fuel.
use cache_grid.Base.{
  ℕ, zero, suc, ◌+◌, ◌-◌, ◌*◌, Bytes, Option, none, some, Bool, true, false, not, ◌&&◌, ◌||◌, leb,
  ltb, ◌==◌, if◌then◌else◌, [], ◌∷◌, length,
}

pub data Result (A : Type 0) : Type 0 where
  ok : A → Result A
  bad_pattern : Result A
  out_of_fuel : Result A

unfoldable pub drop : ℕ → Bytes → Bytes
drop zero s = s
drop (suc n) [] = []
drop (suc n) (c ∷ s) = drop n s

-- utf8.RuneError
abbrev pub rune_error : ℕ
rune_error = 65533

abbrev pub between : ℕ → ℕ → ℕ → Bool
between lo hi b = leb lo b && leb b hi

-- Sequences of two, three and four bytes.
unfoldable pub decode_two : ℕ → Bytes → ℕ × ℕ
decode_two a (b ∷ s) =
    if between 128 191 b then ((a - 192) * 64 + (b - 128), 2) else (rune_error, 1)
decode_two a [] = (rune_error, 1)

unfoldable pub decode_three : ℕ → Bytes → ℕ × ℕ
decode_three a (b ∷ c ∷ s) =
    let lo = if a == 224 then 160 else 128 in
    let hi = if a == 237 then 159 else 191 in
    if between lo hi b && between 128 191 c
    then ((a - 224) * 4096 + (b - 128) * 64 + (c - 128), 3)
    else (rune_error, 1)
decode_three a (b ∷ []) = (rune_error, 1)
decode_three a [] = (rune_error, 1)

unfoldable pub decode_four : ℕ → Bytes → ℕ × ℕ
decode_four a (b ∷ c ∷ d ∷ s) =
    let lo = if a == 240 then 144 else 128 in
    let hi = if a == 244 then 143 else 191 in
    if between lo hi b && (between 128 191 c && between 128 191 d)
    then ((a - 240) * 262144 + (b - 128) * 4096 + (c - 128) * 64 + (d - 128), 4)
    else (rune_error, 1)
decode_four a (b ∷ c ∷ []) = (rune_error, 1)
decode_four a (b ∷ []) = (rune_error, 1)
decode_four a [] = (rune_error, 1)

-- `utf8.DecodeRuneInString` of a text that starts with `a`: the rune and its width.
unfoldable pub decode_rune : ℕ → Bytes → ℕ × ℕ
unfolding decode_two decode_three decode_four
decode_rune a s =
    if ltb a 128
    then (a, 1)
    else if between 194 223 a
    then decode_two a s
    else if between 224 239 a
    then decode_three a s
    else if between 240 244 a
    then decode_four a s
    else (rune_error, 1)

-- What follows a rune that was read, unless it is an error or nothing follows.
unfoldable pub after_rune : ℕ → Bytes → Result (ℕ × Bytes)
unfolding decode_rune drop
after_rune a s =
    let (r, n) = decode_rune a s in
    let rest = drop n (a ∷ s) in
    if (r == rune_error) && (n == 1)
    then bad_pattern
    else elim rest [ [] ↦ bad_pattern | c ∷ more ↦ ok (r, c ∷ more) ]

-- `getEsc`.
unfoldable pub get_esc : Bytes → Result (ℕ × Bytes)
unfolding after_rune
get_esc [] = bad_pattern
get_esc (c ∷ s) =
    if (c == b'-') || (c == b']')
    then bad_pattern
    else if c == b'\\'
    then elim s [ [] ↦ bad_pattern | d ∷ rest ↦ after_rune d rest ]
    else after_rune c s

-- A range after its low end: the high end and what follows.
unfoldable pub get_high : ℕ → Bytes → Result (ℕ × Bytes)
unfolding get_esc
get_high lo [] = bad_pattern
get_high lo (c ∷ s) = if c == b'-' then get_esc s else ok (lo, c ∷ s)

-- The loop over the ranges of a class, from the second round on: whether the rune is in it.
unfoldable pub match_ranges : ℕ → Bytes → ℕ → Bool → Bool → Result (Bool × Bytes)
unfolding get_high
match_ranges zero chunk r found first = out_of_fuel
match_ranges (suc fuel) [] r found first = bad_pattern
match_ranges (suc fuel) (c ∷ s) r found first =
    if (c == b']') && not first then ok (found, s) else elim (get_esc (c ∷ s)) [
      | bad_pattern ↦ bad_pattern
      | out_of_fuel ↦ out_of_fuel
      | ok low ↦ elim (get_high low.0 low.1) [
        | bad_pattern ↦ bad_pattern
        | out_of_fuel ↦ out_of_fuel
        | ok high ↦ match_ranges fuel high.1 r (found || between low.0 high.0 r) false
      ]
    ]

-- A class after its bracket.
unfoldable pub match_class : Bytes → ℕ → Result (Bool × Bytes)
unfolding match_ranges
match_class [] r = bad_pattern
match_class (c ∷ s) r =
    if c == b'^'
    then elim (match_ranges (suc (length s)) s r false true) [
      | ok (found, rest) ↦ ok (not found, rest)
      | bad_pattern ↦ bad_pattern
      | out_of_fuel ↦ out_of_fuel
    ]
    else match_ranges (suc (length (c ∷ s))) (c ∷ s) r false true

-- A text is none once the match has failed: the chunk is then read for its form only.
unfoldable pub next_rune : Option Bytes → ℕ
unfolding decode_rune
next_rune none = 0
next_rune (some []) = 0
next_rune (some (c ∷ s)) = (decode_rune c s).0

unfoldable pub skip_rune : Option Bytes → Option Bytes
unfolding decode_rune drop
skip_rune none = none
skip_rune (some []) = none
skip_rune (some (c ∷ s)) = some (drop (decode_rune c s).1 (c ∷ s))

unfoldable pub skip_any : Option Bytes → Option Bytes
unfolding skip_rune
skip_any none = none
skip_any (some []) = none
skip_any (some (c ∷ s)) = if c == b'/' then none else skip_rune (some (c ∷ s))

unfoldable pub skip_byte : ℕ → Option Bytes → Option Bytes
skip_byte c none = none
skip_byte c (some []) = none
skip_byte c (some (d ∷ s)) = if c == d then some s else none

-- `matchChunk`: the text that is left, or none if the chunk does not match.
unfoldable pub match_chunk : ℕ → Bytes → Option Bytes → Result (Option Bytes)
unfolding match_class next_rune skip_rune skip_any skip_byte
match_chunk fuel [] s = ok s
match_chunk zero (c ∷ chunk) s = out_of_fuel
match_chunk (suc fuel) (c ∷ chunk) s =
    if c == b'['
    then elim (match_class chunk (next_rune s)) [
      | bad_pattern ↦ bad_pattern
      | out_of_fuel ↦ out_of_fuel
      | ok class ↦ match_chunk fuel class.1 (if class.0 then skip_rune s else none)
    ]
    else if c == b'?'
    then match_chunk fuel chunk (skip_any s)
    else if c == b'\\'
    then elim chunk [ [] ↦ bad_pattern | d ∷ rest ↦ match_chunk fuel rest (skip_byte d s) ]
    else match_chunk fuel chunk (skip_byte c s)
