-- ===== src/Prelude/Int.antt =====
-- C's `int` where a sign matters: return codes.
use Prim.Native.Nat.{ℕ, zero, suc}
use mathlib.Core.Path.{◌≡◌, refl}
use mathlib.Core.Logic.{◌⊎◌, inl, inr}

-- `negsuc n` is -(n + 1).
pub data ℤ : Type 0 where
  pos : ℕ → ℤ
  negsuc : ℕ → ℤ

-- The value of the C expression `i > 0`.
abbrev pub is_positive : ℤ → ℕ
is_positive (pos zero) = 0
is_positive (pos (suc n)) = 1
is_positive (negsuc n) = 0

pub ℤ-cases : (i : ℤ) → ((n : ℕ) × (i ≡ pos n)) ⊎ ((n : ℕ) × (i ≡ negsuc n))
ℤ-cases (pos n) = inl (n, refl)
ℤ-cases (negsuc n) = inr (n, refl)
