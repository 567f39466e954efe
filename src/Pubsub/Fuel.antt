-- ===== src/Pubsub/Fuel.antt =====
-- The matching of a chunk ends within its fuel.
use cache_grid.Base.{
  ℕ, zero, suc, ◌≤◌, ◌<◌, Bytes, Option, Bool, true, false, ◌||◌, if◌then◌else◌, [], ◌∷◌, length,
  arith,
}
use cache_grid.Pubsub.Glob.{
  Result, ok, bad_pattern, out_of_fuel, drop, decode_rune, decode_two, decode_three, decode_four,
  after_rune, get_esc, get_high, match_ranges, match_class, match_chunk, next_rune, skip_byte,
  between,
}

-- An answer, whose text is bounded by a predicate.
unfoldable pub Ends : {A : Type 0} → (A → Type 0) → Result A → Type 0
Ends P (ok a) = P a
Ends P bad_pattern = Unit
Ends P out_of_fuel = ⊥

pub Ends-ok : {A : Type 0} (P : A → Type 0) (a : A) → P a → Ends P (ok a)
unfolding Ends
Ends-ok P a h = h

pub Ends-bad : {A : Type 0} (P : A → Type 0) → Ends P bad_pattern
unfolding Ends
Ends-bad P = tt

length-drop : (n : ℕ) (s : Bytes) → length (drop n s) ≤ length s
unfolding drop
length-drop zero s = omega arith
length-drop (suc n) [] = omega arith
length-drop (suc n) (c ∷ s) = omega (arith, length-drop n s)

pub Ends-if :
    {A : Type 0} (P : A → Type 0) (b : Bool) (x y : Result A)
    → Ends P x
    → Ends P y
    → Ends P (if b then x else y)
Ends-if P true x y hx hy = hx
Ends-if P false x y hx hy = hy

Ends-map :
    {A : Type 0} (P Q : A → Type 0) (r : Result A) → ((a : A) → P a → Q a) → Ends P r → Ends Q r
unfolding Ends
Ends-map P Q (ok a) f h = f a h
Ends-map P Q bad_pattern f h = tt
Ends-map P Q out_of_fuel f h = absurd h

-- A step on the answer of another.
pub Ends-then :
    {A B : Type 0} (Before : A → Type 0) (After : B → Type 0) (m : Result A) (step : A → Result B)
    → Ends Before m
    → ((value : A) → Before value → Ends After (step value))
    → Ends After
        (elim m [ ok value ↦ step value | bad_pattern ↦ bad_pattern | out_of_fuel ↦ out_of_fuel ])
unfolding Ends
Ends-then Before After (ok value) step before after = after value before
Ends-then Before After bad_pattern step before after = tt
Ends-then Before After out_of_fuel step before after = absurd before

-- A rune takes at least one byte.
two_width : (a : ℕ) (s : Bytes) → 1 ≤ (decode_two a s).1
unfolding decode_two
two_width a [] = omega arith
two_width a (b ∷ s) = ground arith

if_width : (t : Bool) (r n : ℕ) → 1 ≤ n → 1 ≤ (if◌then◌else◌ {A = ℕ × ℕ} t (r, n) (65533, 1)).1
if_width true r n h = h
if_width false r n h = omega arith

three_width : (a : ℕ) (s : Bytes) → 1 ≤ (decode_three a s).1
unfolding decode_three
three_width a [] = omega arith
three_width a (b ∷ []) = omega arith
three_width a (b ∷ c ∷ s) = if_width _ _ 3 (omega arith)

four_width : (a : ℕ) (s : Bytes) → 1 ≤ (decode_four a s).1
unfolding decode_four
four_width a [] = omega arith
four_width a (b ∷ []) = omega arith
four_width a (b ∷ c ∷ []) = omega arith
four_width a (b ∷ c ∷ d ∷ s) = if_width _ _ 4 (omega arith)

decode_rune_width : (a : ℕ) (s : Bytes) → 1 ≤ (decode_rune a s).1
unfolding decode_rune
decode_rune_width a s = ground (arith, two_width a s, three_width a s, four_width a s)

length-drop_some : (n a : ℕ) (s : Bytes) → 1 ≤ n → length (drop n (a ∷ s)) ≤ length s
unfolding drop
length-drop_some zero a s h = omega arith
length-drop_some (suc n) a s h = length-drop n s

-- An answer with a rest of at most `k` bytes.
abbrev Fits : {A : Type 0} → ℕ → A × Bytes → Type 0
Fits k p = length p.1 ≤ k

abbrev Shrinks : {A : Type 0} → ℕ → Result (A × Bytes) → Type 0
Shrinks k r = Ends (Fits k) r

Shrinks-weaken : {A : Type 0} (j k : ℕ) (r : Result (A × Bytes)) → j ≤ k → Shrinks j r → Shrinks k r
Shrinks-weaken j k r le = Ends-map (Fits j) (Fits k) r λ p h. omega arith

if_followed :
    (b : Bool) (r k : ℕ) (rest : Bytes)
    → length rest ≤ k
    → Shrinks k
        (if b then bad_pattern else elim rest [ [] ↦ bad_pattern | c ∷ more ↦ ok (r, c ∷ more) ])
if_followed true r k rest h = Ends-bad (Fits k)
if_followed false r k [] h = Ends-bad (Fits k)
if_followed false r k (c ∷ rest) h = Ends-ok (Fits k) _ h

after_rune-Shrinks : (a : ℕ) (s : Bytes) → Shrinks (length s) (after_rune a s)
unfolding after_rune
after_rune-Shrinks a s =
    if_followed _ _ (length s) _ (length-drop_some (decode_rune a s).1 a s (decode_rune_width a s))

get_esc-Shrinks : (c : ℕ) (s : Bytes) → Shrinks (length s) (get_esc (c ∷ s))
unfolding get_esc
get_esc-Shrinks c [] =
    Ends-if (Fits zero) _ _ _ (Ends-bad (Fits zero))
      (Ends-if (Fits zero) _ _ _ (Ends-bad (Fits zero)) (after_rune-Shrinks c []))
get_esc-Shrinks c (d ∷ s) =
    let fits = Fits (length (d ∷ s)) in
    Ends-if fits _ _ _ (Ends-bad fits) (
      Ends-if fits _ _ _
        (Shrinks-weaken (length s) (length (d ∷ s)) (after_rune d s) (omega arith)
          (after_rune-Shrinks d s))
        (after_rune-Shrinks c (d ∷ s)))

get_high-Shrinks : (lo : ℕ) (s : Bytes) → Shrinks (length s) (get_high lo s)
unfolding get_high get_esc
get_high-Shrinks lo [] = Ends-bad (Fits zero)
get_high-Shrinks lo (c ∷ []) =
    let whole : length (c ∷ []) ≤ length (c ∷ []) = omega arith in
    Ends-if (Fits 1) _ _ _ (Ends-bad (Fits 1)) (Ends-ok (Fits 1) _ whole)
get_high-Shrinks lo (c ∷ d ∷ s) =
    let size = length (c ∷ d ∷ s) in
    let whole : size ≤ size = omega arith in
    Ends-if (Fits size) _ _ _
      (Shrinks-weaken (length s) size (get_esc (d ∷ s)) (omega arith) (get_esc-Shrinks d s))
      (Ends-ok (Fits size) _ whole)

match_ranges-Shrinks :
    (fuel : ℕ) (s : Bytes) (r : ℕ) (found first : Bool)
    → length s < fuel
    → Shrinks (length s) (match_ranges fuel s r found first)
unfolding match_ranges
match_ranges-Shrinks zero s r found first h = absurd (omega arith)
match_ranges-Shrinks (suc fuel) [] r found first h = Ends-bad (Fits zero)
match_ranges-Shrinks (suc fuel) (c ∷ s) r found first h =
    let size = length (c ∷ s) in
    let closed : length s ≤ size = omega arith in
    Ends-if (Fits size) _ _ _ (Ends-ok (Fits size) _ closed) (
      Ends-then (Fits (length s)) (Fits size) (get_esc (c ∷ s)) _ (get_esc-Shrinks c s) λ low le.
        Ends-then (Fits (length low.1)) (Fits size) (get_high low.0 low.1) _
          (get_high-Shrinks low.0 low.1)
          λ high le'.
            let now = found || between low.0 high.0 r in
            Shrinks-weaken (length high.1) size (match_ranges fuel high.1 r now false) (omega arith)
              (match_ranges-Shrinks fuel high.1 r now false (omega arith)))

match_class-Shrinks : (s : Bytes) (r : ℕ) → Shrinks (length s) (match_class s r)
unfolding match_class
match_class-Shrinks [] r = Ends-bad (Fits zero)
match_class-Shrinks (c ∷ s) r =
    let size = length (c ∷ s) in
    Ends-if (Fits size) _ _ _
      (Ends-then (Fits (length s)) (Fits size) (match_ranges (suc (length s)) s r false true) _
        (match_ranges-Shrinks (suc (length s)) s r false true (omega arith))
        λ p h. Ends-ok (Fits size) _ (omega arith))
      (match_ranges-Shrinks (suc size) (c ∷ s) r false true (omega arith))

-- An answer, whatever it is.
abbrev pub Any : {A : Type 0} → A → Type 0
Any a = Unit

abbrev pub Answers : {A : Type 0} → Result A → Type 0
Answers r = Ends Any r

if_escaped :
    {B : Type 0} (l : Bytes) (f : ℕ → Bytes → Result B)
    → ((d : ℕ) (rest : Bytes) → length rest < length l → Answers (f d rest))
    → Answers (elim l [ [] ↦ bad_pattern | d ∷ rest ↦ f d rest ])
if_escaped [] f next = Ends-bad Any
if_escaped (d ∷ rest) f next = next d rest (omega arith)

pub match_chunk-Answers :
    (fuel : ℕ) (chunk : Bytes) (s : Option Bytes)
    → length chunk ≤ fuel
    → Answers (match_chunk fuel chunk s)
unfolding match_chunk
match_chunk-Answers fuel [] s h = Ends-ok Any s tt
match_chunk-Answers zero (c ∷ chunk) s h = absurd (omega arith)
match_chunk-Answers (suc fuel) (c ∷ chunk) s h =
    Ends-if Any _ _ _
      (Ends-then (Fits (length chunk)) Any (match_class chunk (next_rune s)) _
        (match_class-Shrinks chunk (next_rune s))
        λ class le. match_chunk-Answers fuel class.1 _ (omega arith))
      (Ends-if Any _ _ _ (match_chunk-Answers fuel chunk _ (omega arith)) (
        Ends-if Any _ _ _
          (if_escaped chunk _
            λ d rest le. match_chunk-Answers fuel rest (skip_byte d s) (omega arith))
          (match_chunk-Answers fuel chunk _ (omega arith))))
