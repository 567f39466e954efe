-- ===== src/Base.antt =====
-- The names that the other modules share: the libraries', passed on, and those of the children.
-- They stand for Go's own types: `[]byte` and `string` are lists of bytes, `time.Time` is a number
-- of nanoseconds, a map is an association list in the order in which a `range` happens to walk it.
mod Tests
mod Lists
mod Text
pub mod Int
pub mod GoMap
pub mod Bits
pub use Tests.*
pub use Lists.*
unfoldable pub use Lists.{take}
unfoldable pub use Text.{Bytes, Bytes-discrete, codes}
pub use Prim.Native.Nat.{ℕ, zero, suc, ◌+◌, ◌-◌, ◌*◌, ◌/◌, ◌%◌, ◌^◌, ◌≤◌, ◌<◌}
pub use mathlib.Core.Path.{◌≡◌, refl, sym, ap, ◌∙◌, subst}
pub use mathlib.Core.Logic.{◌≢◌, ◌↔◌, ◌⊎◌, inl, inr, ite, if_pos, if_neg}
pub use mathlib.Core.Bool.{Bool, true, false, not, ◌&&◌, ◌||◌}
pub use mathlib.Core.Option.{Option, none, some}
pub use mathlib.Core.List.{List, [], ◌∷◌, ◌++◌, map}
pub use native.Mathlib.Omega.{arith}
unfoldable pub use mathlib.Core.List.{lookup}
unfoldable pub use native.Mathlib.Decide.{dec_lt, dec_le, ℕ_discrete}
