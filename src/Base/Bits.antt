-- ===== src/Base/Bits.antt =====
-- A masked number is at most the mask.
use Prim.Native.Nat.{ℕ, zero, suc, ◌/◌, ◌≤◌, min, bit_and, digits, bit_and-bitwise}
use native.Mathlib.Omega.{arith}

abbrev masked_digits : ℕ → ℕ → ℕ → ℕ
masked_digits fuel a mask = digits (λ b. zero) min fuel a mask

masked_digits-le : (fuel a mask : ℕ) → masked_digits fuel a mask ≤ mask
masked_digits-le zero a mask = omega arith
masked_digits-le (suc fuel) zero mask = omega arith
masked_digits-le (suc fuel) (suc a) mask =
    omega (arith, masked_digits-le fuel (suc a / 2) (mask / 2))

pub bit_and-le : (a mask : ℕ) → bit_and a mask ≤ mask
bit_and-le a mask = rw (bit_and-bitwise a mask) (masked_digits-le a a mask)
