-- ===== src/Pubsub/Total.antt =====
-- The loops of `path.Match` end within their fuel.
use cache_grid.Base.{
  ℕ, zero, suc, ◌≤◌, ◌≡◌, ◌≢◌, refl, Bytes, Option, none, some, Bool, true, false, ◌==◌,
  if◌then◌else◌, [], ◌∷◌, length, arith,
}
use cache_grid.Pubsub.Glob.{Result, ok, bad_pattern, out_of_fuel, match_chunk}
use cache_grid.Pubsub.Match.{
  is_nil, scan_stars, scan_chunk, skip_match, try_star, match_next, check_rest, match_loop,
  path_match,
}
use cache_grid.Pubsub.Fuel.{Ends, Ends-ok, Ends-if, Ends-then, Any, Answers, match_chunk-Answers}

chunk_lem : (chunk s : Bytes) → Answers (match_chunk (length chunk) chunk (some s))
chunk_lem chunk s = match_chunk-Answers (length chunk) chunk (some s) (omega arith)

-- What is done with the answer of a chunk.
answer_split :
    {B : Type 0} (r : Result (Option Bytes)) (x : Result B) (f : Bytes → Result B)
    → Answers r
    → Answers x
    → ((t : Bytes) → Answers (f t))
    → Answers (elim r [
      | bad_pattern ↦ bad_pattern
      | out_of_fuel ↦ out_of_fuel
      | ok none ↦ x
      | ok (some t) ↦ f t
    ])
unfolding Ends
answer_split bad_pattern x f h hx hf = tt
answer_split out_of_fuel x f h hx hf = absurd h
answer_split (ok none) x f h hx hf = hx
answer_split (ok (some t)) x f h hx hf = hf t

skip_match-Answers : (chunk name : Bytes) (last : Bool) → Answers (skip_match chunk last name)
unfolding skip_match
skip_match-Answers chunk [] last = Ends-ok Any none tt
skip_match-Answers chunk (c ∷ name) last =
    let more = skip_match-Answers chunk name last in
    Ends-if Any _ _ _ (Ends-ok Any none tt) (
      answer_split (match_chunk (length chunk) chunk (some name)) _ _ (chunk_lem chunk name) more
        λ t. Ends-if Any _ _ _ more (Ends-ok Any (some t) tt))

try_star-Answers : (star : Bool) (chunk rest name : Bytes) → Answers (try_star star chunk rest name)
unfolding try_star
try_star-Answers star chunk rest name =
    Ends-if Any _ _ _ (skip_match-Answers chunk name (is_nil rest)) (Ends-ok Any none tt)

match_next-Answers :
    (star : Bool) (chunk rest name : Bytes) → Answers (match_next star chunk rest name)
unfolding match_next
match_next-Answers star chunk rest name =
    let starred = try_star-Answers star chunk rest name in
    answer_split (match_chunk (length chunk) chunk (some name)) _ _ (chunk_lem chunk name) starred
      λ t. Ends-if Any _ _ _ (Ends-ok Any (some t) tt) starred

length-scan_stars : (s : Bytes) → length (scan_stars s).1 ≤ length s
unfolding scan_stars
length-scan_stars [] = omega arith
length-scan_stars (c ∷ s) = ground (arith, length-scan_stars s)

length-scan_chunk : (in_range : Bool) (s : Bytes) → length (scan_chunk in_range s).1 ≤ length s
unfolding scan_chunk
length-scan_chunk in_range [] = omega arith
length-scan_chunk in_range (c ∷ []) = ground arith
length-scan_chunk in_range (c ∷ d ∷ s) = ground (
  arith,
  length-scan_chunk in_range s,
  length-scan_chunk true (d ∷ s),
  length-scan_chunk false (d ∷ s),
  length-scan_chunk in_range (d ∷ s),
)

-- A chunk that starts with no star takes its first byte.
scan_chunk_shorter :
    (c : ℕ) (s : Bytes) → (c == b'*') ≡ false → length (scan_chunk false (c ∷ s)).1 ≤ length s
unfolding scan_chunk
scan_chunk_shorter c [] h = ground arith
scan_chunk_shorter c (d ∷ s) h = ground (
  arith,
  length-scan_chunk false s,
  length-scan_chunk true (d ∷ s),
  length-scan_chunk false (d ∷ s),
)

-- One round takes at least one byte of the pattern.
round_shorter : (c : ℕ) (s : Bytes) → length (scan_chunk false (scan_stars (c ∷ s)).1).1 ≤ length s
unfolding scan_stars
round_shorter c s = by_first (c == b'*') refl
  where
    by_first :
        (t : Bool)
        → (c == b'*') ≡ t
        → length
            (scan_chunk false
              (if◌then◌else◌ {A = Bool × Bytes}
                (c == b'*')
                (true, (scan_stars s).1)
                (false, c ∷ s)).1).1
          ≤ length s
    by_first true e =
        rw e (omega (arith, length-scan_chunk false (scan_stars s).1, length-scan_stars s))
    by_first false e = rw e (scan_chunk_shorter c s e)

check_rest-Answers :
    (fuel : ℕ) (pattern : Bytes) → length pattern ≤ fuel → Answers (check_rest fuel pattern)
unfolding check_rest
check_rest-Answers fuel [] h = Ends-ok Any false tt
check_rest-Answers zero (c ∷ pattern) h = absurd (omega arith)
check_rest-Answers (suc fuel) (c ∷ pattern) h =
    let scanned = scan_chunk false (scan_stars (c ∷ pattern)).1 in
    Ends-then Any Any (match_chunk (length scanned.0) scanned.0 (some [])) _
      (chunk_lem scanned.0 [])
      λ _ _. check_rest-Answers fuel scanned.1 (omega (arith, round_shorter c pattern))

match_loop-Answers :
    (fuel : ℕ) (pattern name : Bytes)
    → length pattern ≤ fuel
    → Answers (match_loop fuel pattern name)
unfolding match_loop
match_loop-Answers fuel [] name h = Ends-ok Any _ tt
match_loop-Answers zero (c ∷ pattern) name h = absurd (omega arith)
match_loop-Answers (suc fuel) (c ∷ pattern) name h =
    let stars = scan_stars (c ∷ pattern) in
    let scanned = scan_chunk false stars.1 in
    let fits : length scanned.1 ≤ fuel = omega (arith, round_shorter c pattern) in
    Ends-if Any _ _ _ (Ends-ok Any _ tt) (
      answer_split (match_next stars.0 scanned.0 scanned.1 name) _ _
        (match_next-Answers stars.0 scanned.0 scanned.1 name)
        (check_rest-Answers fuel scanned.1 fits) λ t. match_loop-Answers fuel scanned.1 t fits)

not_out_of_fuel : {A : Type 0} (r : Result A) → Answers r → r ≢ out_of_fuel
unfolding Ends
not_out_of_fuel (ok a) h = λ e. cc
not_out_of_fuel bad_pattern h = λ e. cc
not_out_of_fuel out_of_fuel h = absurd h

-- On every pattern and every name `path.Match` answers: the bytes of the pattern are fuel enough for
-- its loop over the chunks, and those of a chunk for the loops that read one.
pub path_match_answers : (pattern name : Bytes) → path_match pattern name ≢ out_of_fuel
unfolding path_match
path_match_answers pattern name =
    not_out_of_fuel (path_match pattern name)
      (match_loop-Answers (length pattern) pattern name (omega arith))
