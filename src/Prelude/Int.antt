-- ===== src/Prelude/Int.antt =====
-- C's `int` and `ssize_t` over the native numbers, under the library's names.
use Prim.Native.Nat.{ℕ}
use mathlib.Core.Path.{◌≡◌, ap}
use mathlib.Core.Logic.{◌≢◌, ◌⊎◌, inl, inr}
use mathlib.Core.Bool.{Bool, true, false}
use native.Mathlib.Omega.{arith}
use libxpdk.Prelude.Tests.{ltb, ◌==◌, Bool-cases}

-- `negsuc n` is -(n + 1).
pub data ℤ : Type 0 where
  pos : ℕ → ℤ
  negsuc : ℕ → ℤ

abbrev pub is_neg : ℤ → Bool
is_neg (pos n) = false
is_neg (negsuc n) = true

-- `a > 0`
abbrev pub is_pos : ℤ → Bool
is_pos (pos n) = ltb 0 n
is_pos (negsuc n) = false

abbrev pub eq_ℤ : ℤ → ℤ → Bool
eq_ℤ (pos a) (pos b) = a == b
eq_ℤ (negsuc a) (negsuc b) = a == b
eq_ℤ (pos a) (negsuc b) = false
eq_ℤ (negsuc a) (pos b) = false

-- The number that a non-negative integer is, and 0 for a negative one.
abbrev pub pos_part : ℤ → ℕ
pos_part (pos n) = n
pos_part (negsuc n) = 0

pub ℤ-cases : (a b : ℤ) → (a ≡ b) ⊎ (a ≢ b)
ℤ-cases (pos a) (pos b) = elim (Bool-cases (a == b)) [
  | inl e ↦ inl (ap pos (ground arith))
  | inr e ↦ inr λ h. let k : a ≡ b = ap pos_part h in ground arith
]
ℤ-cases (negsuc a) (negsuc b) = elim (Bool-cases (a == b)) [
  | inl e ↦ inl (ap negsuc (ground arith))
  | inr e ↦ inr λ h. let k : a ≡ b = cc in ground arith
]
ℤ-cases (pos a) (negsuc b) = inr λ h. cc
ℤ-cases (negsuc a) (pos b) = inr λ h. cc
