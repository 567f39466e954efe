-- ===== src/Base/Text.antt =====
-- Go's `string` and `[]byte`, as lists of bytes with a decidable equality that computes in tests.
use Prim.Native.Nat.{ℕ}
use Prim.Native.Char.{code}
use Prim.Native.String.{String}
use mathlib.Core.Path.{◌≡◌, refl}
use mathlib.Core.List.{List, [], ◌∷◌}
use native.Mathlib.Decide.{ℕ_discrete}

abbrev pub Bytes : Type 0
Bytes = List ℕ

-- A literal of ASCII characters.
abbrev pub codes : String → Bytes
codes String.[] = []
codes (String.◌∷◌ c s) = code c ∷ codes s

cons_dec : {x y : ℕ} {xs ys : Bytes} → Dec (x ≡ y) → Dec (xs ≡ ys) → Dec (x ∷ xs ≡ y ∷ ys)
cons_dec (yes p) (yes q) = yes (λ i. p i ∷ q i)
cons_dec (yes p) (no n) = no (λ e. n (cc))
cons_dec (no n) d = no (λ e. n (cc))

unfoldable pub Bytes-discrete : Discrete Bytes
unfolding ℕ_discrete cons_dec
Bytes-discrete [] [] = yes refl
Bytes-discrete [] (y ∷ ys) = no (λ e. cc)
Bytes-discrete (x ∷ xs) [] = no (λ e. cc)
Bytes-discrete (x ∷ xs) (y ∷ ys) = cons_dec (ℕ_discrete x y) (Bytes-discrete xs ys)
