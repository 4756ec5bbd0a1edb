-- ===== src/Prelude/Int.antt =====
-- Go's signed integers over the native numbers: `int` and `time.Duration` values, and their tests.
use Prim.Native.Nat.{ℕ, ◌≤◌, ◌<◌}
use mathlib.Core.Path.{◌≡◌}
use mathlib.Core.Logic.{◌↔◌}
use native.Mathlib.Omega.{arith}
use mathlib.Core.Bool.{Bool, true, false}
use shock_absorber.Prelude.Tests.{leb, num_eq}

-- `negsuc n` is -(n + 1).
pub data ℤ : Type 0 where
  pos : ℕ → ℤ
  negsuc : ℕ → ℤ

-- x <= 0
abbrev pub not_positive : ℤ → Bool
not_positive (pos n) = num_eq n 0
not_positive (negsuc n) = true

-- x < 0
abbrev pub is_negative : ℤ → Bool
is_negative (pos n) = false
is_negative (negsuc n) = true

-- x == 0
abbrev pub is_zero : ℤ → Bool
is_zero (pos n) = num_eq n 0
is_zero (negsuc n) = false

-- x <= y
abbrev pub le_ℤ : ℤ → ℤ → Bool
le_ℤ (pos n) (pos m) = leb n m
le_ℤ (pos n) (negsuc m) = false
le_ℤ (negsuc n) (pos m) = true
le_ℤ (negsuc n) (negsuc m) = leb m n

abbrev pub Positive : ℤ → Type 0
Positive (pos n) = 0 < n
Positive (negsuc n) = ⊥

abbrev pub NonNegative : ℤ → Type 0
NonNegative (pos n) = Unit
NonNegative (negsuc n) = ⊥

-- x <= y, as a statement.
abbrev pub AtMost : ℤ → ℤ → Type 0
AtMost (pos n) (pos m) = n ≤ m
AtMost (pos n) (negsuc m) = ⊥
AtMost (negsuc n) (pos m) = Unit
AtMost (negsuc n) (negsuc m) = m ≤ n

pub not_positive_iff : (z : ℤ) → (not_positive z ≡ false) ↔ Positive z
not_positive_iff (pos n) = (λ h. ground arith, λ h. ground arith)
not_positive_iff (negsuc n) = (λ h. cc, λ h. absurd h)

pub is_negative_iff : (z : ℤ) → (is_negative z ≡ false) ↔ NonNegative z
is_negative_iff (pos n) = (λ h. tt, λ h. cc)
is_negative_iff (negsuc n) = (λ h. cc, λ h. absurd h)

pub le_ℤ_iff : (x y : ℤ) → (le_ℤ x y ≡ true) ↔ AtMost x y
le_ℤ_iff (pos n) (pos m) = (λ h. ground arith, λ h. ground arith)
le_ℤ_iff (pos n) (negsuc m) = (λ h. cc, λ h. absurd h)
le_ℤ_iff (negsuc n) (pos m) = (λ h. tt, λ h. cc)
le_ℤ_iff (negsuc n) (negsuc m) = (λ h. ground arith, λ h. ground arith)
