-- ===== src/Pubsub/Match.antt =====
-- The loop of `path.Match` over the chunks of a pattern.
use cache_grid.Base.{
  ℕ, zero, suc, Bytes, Option, none, some, Bool, true, false, not, ◌&&◌, ◌||◌, ◌==◌, if◌then◌else◌,
  [], ◌∷◌, length,
}
use cache_grid.Pubsub.Glob.{Result, ok, bad_pattern, out_of_fuel, match_chunk}

abbrev pub is_nil : Bytes → Bool
is_nil [] = true
is_nil (_ ∷ _) = false

-- Whether the pattern starts with a star, and what follows the stars.
unfoldable pub scan_stars : Bytes → Bool × Bytes
scan_stars [] = (false, [])
scan_stars (c ∷ s) = if c == b'*' then (true, (scan_stars s).1) else (false, c ∷ s)

-- The chunk up to the next star that is in no class, and the rest.
unfoldable pub scan_chunk : Bool → Bytes → Bytes × Bytes
scan_chunk in_range [] = ([], [])
scan_chunk in_range (c ∷ []) = if (c == b'*') && not in_range then ([], c ∷ []) else (c ∷ [], [])
scan_chunk in_range (c ∷ d ∷ s) =
    let pair = scan_chunk in_range s in
    let opened = scan_chunk true (d ∷ s) in
    let closed = scan_chunk false (d ∷ s) in
    let same = scan_chunk in_range (d ∷ s) in
    if c == b'\\'
    then (c ∷ d ∷ pair.0, pair.1)
    else if c == b'['
    then (c ∷ opened.0, opened.1)
    else if c == b']'
    then (c ∷ closed.0, closed.1)
    else if (c == b'*') && not in_range
    then ([], c ∷ d ∷ s)
    else (c ∷ same.0, same.1)

-- A text without a slash.
unfoldable pub no_slash : Bytes → Bool
no_slash [] = true
no_slash (c ∷ s) = let rest = no_slash s in if c == b'/' then false else rest

-- The loop that lets a star take one more byte each round: the text after the chunk, or none where
-- there is no match. `last` says that no pattern follows.
unfoldable pub skip_match : Bytes → Bool → Bytes → Result (Option Bytes)
skip_match chunk last [] = ok none
skip_match chunk last (c ∷ s) =
    let more = skip_match chunk last s in
    if c == b'/' then ok none else elim (match_chunk (length chunk) chunk (some s)) [
      | bad_pattern ↦ bad_pattern
      | out_of_fuel ↦ out_of_fuel
      | ok none ↦ more
      | ok (some t) ↦ if last && not (is_nil t) then more else ok (some t)
    ]

-- What is left of the pattern is read for its form only.
unfoldable pub check_rest : ℕ → Bytes → Result Bool
unfolding scan_stars scan_chunk
check_rest fuel [] = ok false
check_rest zero (c ∷ pattern) = out_of_fuel
check_rest (suc fuel) (c ∷ pattern) =
    let (chunk, rest) = scan_chunk false (scan_stars (c ∷ pattern)).1 in
    elim (match_chunk (length chunk) chunk (some [])) [
      | bad_pattern ↦ bad_pattern
      | out_of_fuel ↦ out_of_fuel
      | ok _ ↦ check_rest fuel rest
    ]

-- After a chunk that did not match at the start.
unfoldable pub try_star : Bool → Bytes → Bytes → Bytes → Result (Option Bytes)
unfolding skip_match
try_star star chunk rest name = if star then skip_match chunk (is_nil rest) name else ok none

-- The text that is left after a chunk, or none where there is no match.
unfoldable pub match_next : Bool → Bytes → Bytes → Bytes → Result (Option Bytes)
unfolding try_star
match_next star chunk rest name = elim (match_chunk (length chunk) chunk (some name)) [
  | bad_pattern ↦ bad_pattern
  | out_of_fuel ↦ out_of_fuel
  | ok none ↦ try_star star chunk rest name
  | ok (some t) ↦
      if is_nil t || not (is_nil rest) then ok (some t) else try_star star chunk rest name
]

unfoldable pub match_loop : ℕ → Bytes → Bytes → Result Bool
unfolding scan_stars scan_chunk no_slash match_next check_rest
match_loop fuel [] name = ok (is_nil name)
match_loop zero (c ∷ pattern) name = out_of_fuel
match_loop (suc fuel) (c ∷ pattern) name =
    let (star, start) = scan_stars (c ∷ pattern) in
    let (chunk, rest) = scan_chunk false start in
    if star && is_nil chunk then ok (no_slash name) else elim (match_next star chunk rest name) [
      | bad_pattern ↦ bad_pattern
      | out_of_fuel ↦ out_of_fuel
      | ok none ↦ check_rest fuel rest
      | ok (some t) ↦ match_loop fuel rest t
    ]

-- `path.Match`.
unfoldable pub path_match : Bytes → Bytes → Result Bool
unfolding match_loop
path_match pattern name = match_loop (length pattern) pattern name

-- A bad pattern matches nothing.
unfoldable pub matches : Bytes → Bytes → Bool
unfolding path_match
matches pattern key = elim (path_match pattern key) [
  | ok matched ↦ matched
  | bad_pattern ↦ false
  | out_of_fuel ↦ false
]
