-- ===== src/Prelude/Int.antt =====
-- Integers over the native numbers: `negsuc n` is -(n + 1).
use Prim.Native.Nat.{ℕ, zero, suc}
use mathlib.Core.Path.{◌≡◌, refl}
use mathlib.Core.Logic.{◌⊎◌, inl, inr}

pub data ℤ : Type 0 where
  pos : ℕ → ℤ
  negsuc : ℕ → ℤ

-- The integer -n.
abbrev pub neg_of : ℕ → ℤ
neg_of zero = pos 0
neg_of (suc n) = negsuc n

pub int_cases : (z : ℤ) → ((n : ℕ) × (z ≡ negsuc n)) ⊎ ((z ≡ pos 0) ⊎ ((n : ℕ) × (z ≡ pos (suc n))))
int_cases (negsuc n) = inl (n, refl)
int_cases (pos zero) = inr (inl refl)
int_cases (pos (suc n)) = inr (inr (n, refl))
