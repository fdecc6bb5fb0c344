-- ===== src/Prelude/Flags.antt =====
-- Masking by no bits.
use Prim.Native.Nat.{ℕ, zero, suc, ◌/◌, min, bit_and, digits, bit_and-bitwise}
use mathlib.Core.Path.{◌≡◌, refl, ◌∙◌}
use native.Mathlib.Omega.{arith}

digits-zero : (fuel a : ℕ) → digits (λ b. zero) min fuel a 0 ≡ 0
digits-zero zero zero = refl
digits-zero zero (suc a) = refl
digits-zero (suc fuel) zero = refl
digits-zero (suc fuel) (suc a) = omega (arith, digits-zero fuel (suc a / 2))

pub bit_and-zero : (a : ℕ) → bit_and a 0 ≡ 0
bit_and-zero a = bit_and-bitwise a 0 ∙ digits-zero a a
