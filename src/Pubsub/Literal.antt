-- ===== src/Pubsub/Literal.antt =====
-- Patterns of plain text, alone or before a star.
use cache_grid.Base.{
  ℕ, suc, ◌≡◌, refl, sym, ap, ◌∙◌, ◌↔◌, Bytes, Option, none, some, Bool, true, false, not, ◌&&◌,
  ◌||◌, ◌==◌, if◌then◌else◌, [], ◌∷◌, ◌++◌, length, All, length-append, Option-cases, inl, inr,
  arith,
}
use mathlib.Core.List.{append-nil}
use cache_grid.Pubsub.Glob.{Result, ok, match_chunk, skip_byte}
use cache_grid.Pubsub.Match.{
  is_nil, scan_stars, scan_chunk, no_slash, try_star, match_next, check_rest, match_loop,
  path_match, matches,
}

-- A byte that stands for itself.
abbrev pub is_plain : ℕ → Bool
is_plain c = not ((c == b'*') || (c == b'?') || (c == b'[') || (c == b'\\'))

-- What follows a prefix.
unfoldable pub strip_prefix : Bytes → Bytes → Option Bytes
strip_prefix [] s = some s
strip_prefix (c ∷ l) [] = none
strip_prefix (c ∷ l) (d ∷ s) = let rest = strip_prefix l s in if c == d then rest else none

scan_chunk_end : (lit : Bytes) → All (λ c. is_plain c ≡ true) lit → scan_chunk false lit ≡ (lit, [])
unfolding scan_chunk
scan_chunk_end [] plain = refl
scan_chunk_end (c ∷ []) plain = ground arith
scan_chunk_end (c ∷ d ∷ lit) plain = ground (arith, scan_chunk_end (d ∷ lit) plain.1)

scan_chunk_star :
    (lit : Bytes)
    → All (λ c. is_plain c ≡ true) lit
    → scan_chunk false (lit ++ b'*' ∷ []) ≡ (lit, b'*' ∷ [])
unfolding scan_chunk
scan_chunk_star [] plain = refl
scan_chunk_star (c ∷ []) plain = ground arith
scan_chunk_star (c ∷ d ∷ lit) plain = ground (arith, scan_chunk_star (d ∷ lit) plain.1)

match_chunk_failed :
    (lit : Bytes) → All (λ c. is_plain c ≡ true) lit → match_chunk (length lit) lit none ≡ ok none
unfolding match_chunk skip_byte
match_chunk_failed [] plain = refl
match_chunk_failed (c ∷ lit) plain = ground (arith, match_chunk_failed lit plain.1)

match_chunk_plain :
    (lit s : Bytes)
    → All (λ c. is_plain c ≡ true) lit
    → match_chunk (length lit) lit (some s) ≡ ok (strip_prefix lit s)
unfolding match_chunk skip_byte strip_prefix
match_chunk_plain [] s plain = refl
match_chunk_plain (c ∷ lit) [] plain = ground (arith, match_chunk_failed lit plain.1)
match_chunk_plain (c ∷ lit) (d ∷ s) plain =
    ground (arith, match_chunk_failed lit plain.1, match_chunk_plain lit s plain.1)

-- The end of a name, after the text of the pattern.
unfoldable pub ends : Option Bytes → Bool
ends none = false
ends (some rest) = is_nil rest

unfoldable pub flat : Option Bytes → Bool
unfolding no_slash
flat none = false
flat (some rest) = no_slash rest

-- One round of the loop, by what the scan and the match of its chunk give.
unfoldable after_round : ℕ → Bytes → Option Bytes → Result Bool
after_round fuel rest none = check_rest fuel rest
after_round fuel rest (some t) = match_loop fuel rest t

round :
    (fuel c : ℕ) (pattern start chunk rest name : Bytes) (star : Bool) (left : Option Bytes)
    → scan_stars (c ∷ pattern) ≡ (star, start)
    → scan_chunk false start ≡ (chunk, rest)
    → (star && is_nil chunk) ≡ false
    → match_next star chunk rest name ≡ ok left
    → match_loop (suc fuel) (c ∷ pattern) name ≡ after_round fuel rest left
unfolding match_loop after_round
round fuel c pattern start chunk rest name star left stars scanned more matched =
    elim (Option-cases left) [
      | inl e ↦ ground (arith, stars, scanned, more, matched, e)
      | inr (t, e) ↦ ground (arith, stars, scanned, more, matched, e)
    ]

no_stars : (c : ℕ) (s : Bytes) → is_plain c ≡ true → scan_stars (c ∷ s) ≡ (false, c ∷ s)
unfolding scan_stars
no_stars c s plain = ground arith

-- The last chunk has to reach the end of the name.
at_end : Option Bytes → Option Bytes
at_end none = none
at_end (some t) = if is_nil t then some t else none

match_next_last :
    (chunk name : Bytes) (left : Option Bytes)
    → match_chunk (length chunk) chunk (some name) ≡ ok left
    → match_next false chunk [] name ≡ ok (at_end left)
unfolding match_next try_star at_end
match_next_last chunk name none matched = ground (arith, matched)
match_next_last chunk name (some t) matched = ground (arith, matched)

match_next_more :
    (chunk rest name : Bytes) (d : ℕ) (left : Option Bytes)
    → match_chunk (length chunk) chunk (some name) ≡ ok left
    → match_next false chunk (d ∷ rest) name ≡ ok left
unfolding match_next try_star
match_next_more chunk rest name d none matched = ground (arith, matched)
match_next_more chunk rest name d (some t) matched = ground (arith, matched)

after_text : (fuel : ℕ) (left : Option Bytes) → after_round fuel [] (at_end left) ≡ ok (ends left)
unfolding after_round at_end ends match_loop check_rest
after_text fuel none = refl
after_text fuel (some []) = refl
after_text fuel (some (c ∷ t)) = refl

after_star :
    (fuel : ℕ) (left : Option Bytes) → after_round (suc fuel) (b'*' ∷ []) left ≡ ok (flat left)
unfolding after_round flat match_loop check_rest scan_stars scan_chunk match_chunk no_slash
after_star fuel none = refl
after_star fuel (some t) = refl

path_match_text :
    (lit key : Bytes)
    → All (λ c. is_plain c ≡ true) lit
    → path_match lit key ≡ ok (ends (strip_prefix lit key))
unfolding path_match match_loop strip_prefix ends
path_match_text [] key plain = refl
path_match_text (c ∷ lit) key plain =
    let left = strip_prefix (c ∷ lit) key in
    round (length lit) c lit (c ∷ lit) (c ∷ lit) [] key false (at_end left) (no_stars c lit plain.0)
      (scan_chunk_end (c ∷ lit) plain) refl
      (match_next_last (c ∷ lit) key left (match_chunk_plain (c ∷ lit) key plain))
    ∙ after_text (length lit) left

path_match_star :
    (lit key : Bytes)
    → All (λ c. is_plain c ≡ true) lit
    → path_match (lit ++ b'*' ∷ []) key ≡ ok (flat (strip_prefix lit key))
unfolding path_match match_loop strip_prefix flat scan_stars scan_chunk no_slash
path_match_star [] key plain = refl
path_match_star (c ∷ lit) key plain =
    let left = strip_prefix (c ∷ lit) key in
    let tail = lit ++ b'*' ∷ [] in
    let fuel : length tail ≡ suc (length lit) = omega (arith, length-append lit (b'*' ∷ [])) in
    ap (λ k. match_loop (suc k) (c ∷ tail) key) fuel
    ∙ round (suc (length lit)) c tail (c ∷ tail) (c ∷ lit) (b'*' ∷ []) key false left
        (no_stars c tail plain.0) (scan_chunk_star (c ∷ lit) plain) refl
        (match_next_more (c ∷ lit) [] key b'*' left (match_chunk_plain (c ∷ lit) key plain))
    ∙ after_star (length lit) left

strip_prefix_sound : (lit key rest : Bytes) → strip_prefix lit key ≡ some rest → key ≡ lit ++ rest
unfolding strip_prefix
strip_prefix_sound [] key rest h = cc
strip_prefix_sound (c ∷ lit) [] rest h = cc
strip_prefix_sound (c ∷ lit) (d ∷ key) rest h = ground (arith, strip_prefix_sound lit key rest, h)

strip_prefix-append : (lit rest : Bytes) → strip_prefix lit (lit ++ rest) ≡ some rest
unfolding strip_prefix
strip_prefix-append [] rest = refl
strip_prefix-append (c ∷ lit) rest = ground (arith, strip_prefix-append lit rest)

nil_rest : (rest : Bytes) → is_nil rest ≡ true → rest ≡ []
nil_rest [] h = refl
nil_rest (c ∷ rest) h = cc

strip_prefix_self : (lit : Bytes) → strip_prefix lit lit ≡ some []
unfolding strip_prefix
strip_prefix_self [] = refl
strip_prefix_self (c ∷ lit) = ground (arith, strip_prefix_self lit)

ends_lem : (lit key : Bytes) → (ends (strip_prefix lit key) ≡ true) ↔ (key ≡ lit)
unfolding ends
ends_lem lit key = (
  λ h. elim (Option-cases (strip_prefix lit key)) [
    | inl e ↦ ground (arith, e, h)
    | inr (rest, e) ↦
        let empty = nil_rest rest (ap ends (sym e) ∙ h) in
        strip_prefix_sound lit key [] (e ∙ ap some empty) ∙ append-nil lit
  ],
  λ h. rw (h, strip_prefix_self lit) refl,
)

flat_lem :
    (lit key : Bytes)
    → (flat (strip_prefix lit key) ≡ true)
      ↔ ((rest : Bytes) × (key ≡ lit ++ rest) × (no_slash rest ≡ true))
unfolding flat
flat_lem lit key = (
  λ h. elim (Option-cases (strip_prefix lit key)) [
    | inl e ↦ ground (arith, e, h)
    | inr (rest, e) ↦ (rest, strip_prefix_sound lit key rest e, ap flat (sym e) ∙ h)
  ],
  λ (rest, same, clear). rw (same, strip_prefix-append lit rest) clear,
)

-- A pattern of plain text matches the key that it is, and no other; plain text with a star behind it
-- matches exactly the keys that start with the text and have no slash after it.
pub matches_lem :
    (lit key : Bytes)
    → All (λ c. is_plain c ≡ true) lit
    → ((matches lit key ≡ true) ↔ (key ≡ lit))
      × ((matches (lit ++ b'*' ∷ []) key ≡ true)
          ↔ ((rest : Bytes) × (key ≡ lit ++ rest) × (no_slash rest ≡ true)))
unfolding matches
matches_lem lit key plain = (
  rw (matches, path_match_text lit key plain) (ends_lem lit key),
  rw (matches, path_match_star lit key plain) (flat_lem lit key),
)
