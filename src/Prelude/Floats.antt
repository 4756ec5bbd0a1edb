-- ===== src/Prelude/Floats.antt =====
-- Go's float64, as far as it is compared: a finite value is a whole number over a power of two,
-- which every float64 is exactly; a comparison with NaN is false.
use shock_absorber.Prelude.Int.{ℤ, pos, negsuc, le_ℤ}
use Prim.Native.Nat.{ℕ, suc, ◌*◌, ◌-◌, ◌^◌}
use mathlib.Core.Path.{◌≡◌, refl}
use mathlib.Core.Logic.{◌↔◌, ◌⊎◌, inl, inr}
use mathlib.Core.Bool.{Bool, true, false, not, ◌||◌}
use native.Mathlib.Omega.{arith}

pub data Float : Type 0 where
  nan neg_inf pos_inf : Float
  over_power : ℤ → ℕ → Float

abbrev pub whole : ℕ → Float
whole n = over_power (pos n) 0

abbrev scale : ℤ → ℕ → ℤ
scale (pos n) k = pos (n * 2 ^ k)
scale (negsuc n) k = negsuc (suc n * 2 ^ k - 1)

-- `x <= y`
abbrev pub le_float : Float → Float → Bool
le_float nan y = false
le_float neg_inf nan = false
le_float neg_inf _ = true
le_float pos_inf pos_inf = true
le_float pos_inf _ = false
le_float (over_power n s) nan = false
le_float (over_power n s) neg_inf = false
le_float (over_power n s) pos_inf = true
le_float (over_power n s) (over_power m t) = le_ℤ (scale n t) (scale m s)

-- `x < y`
abbrev pub lt_float : Float → Float → Bool
lt_float nan y = false
lt_float neg_inf nan = false
lt_float neg_inf neg_inf = false
lt_float neg_inf _ = true
lt_float pos_inf _ = false
lt_float (over_power n s) nan = false
lt_float (over_power n s) neg_inf = false
lt_float (over_power n s) pos_inf = true
lt_float (over_power n s) (over_power m t) = not (le_ℤ (scale m s) (scale n t))

-- `x <= y` fails when one of the two is NaN, or when `y < x`.
pub le_float-false :
    (x y : Float) → (le_float x y ≡ false) ↔ ((x ≡ nan) ⊎ (y ≡ nan) ⊎ (lt_float y x ≡ true))
le_float-false nan y = (λ h. inl refl, λ h. refl)
le_float-false neg_inf nan = (λ h. inr (inl refl), λ h. refl)
le_float-false neg_inf neg_inf = (λ h. cc, λ h. ground arith)
le_float-false neg_inf pos_inf = (λ h. cc, λ h. ground arith)
le_float-false neg_inf (over_power m t) = (λ h. cc, λ h. ground arith)
le_float-false pos_inf nan = (λ h. inr (inl refl), λ h. refl)
le_float-false pos_inf neg_inf = (λ h. inr (inr refl), λ h. refl)
le_float-false pos_inf pos_inf = (λ h. cc, λ h. ground arith)
le_float-false pos_inf (over_power m t) = (λ h. inr (inr refl), λ h. refl)
le_float-false (over_power n s) nan = (λ h. inr (inl refl), λ h. refl)
le_float-false (over_power n s) neg_inf = (λ h. inr (inr refl), λ h. refl)
le_float-false (over_power n s) pos_inf = (λ h. cc, λ h. ground arith)
le_float-false (over_power n s) (over_power m t) = (λ h. ground arith, λ h. ground arith)

pub lt_float-false :
    (x y : Float) → (lt_float x y ≡ false) ↔ ((x ≡ nan) ⊎ (y ≡ nan) ⊎ (le_float y x ≡ true))
lt_float-false nan y = (λ h. inl refl, λ h. refl)
lt_float-false neg_inf nan = (λ h. inr (inl refl), λ h. refl)
lt_float-false neg_inf neg_inf = (λ h. inr (inr refl), λ h. refl)
lt_float-false neg_inf pos_inf = (λ h. cc, λ h. ground arith)
lt_float-false neg_inf (over_power m t) = (λ h. cc, λ h. ground arith)
lt_float-false pos_inf nan = (λ h. inr (inl refl), λ h. refl)
lt_float-false pos_inf neg_inf = (λ h. inr (inr refl), λ h. refl)
lt_float-false pos_inf pos_inf = (λ h. inr (inr refl), λ h. refl)
lt_float-false pos_inf (over_power m t) = (λ h. inr (inr refl), λ h. refl)
lt_float-false (over_power n s) nan = (λ h. inr (inl refl), λ h. refl)
lt_float-false (over_power n s) neg_inf = (λ h. inr (inr refl), λ h. refl)
lt_float-false (over_power n s) pos_inf = (λ h. cc, λ h. ground arith)
lt_float-false (over_power n s) (over_power m t) = (λ h. ground arith, λ h. ground arith)

-- A threshold that is not outside of `0 < x <= 100`.
abbrev pub IsThreshold : Float → Type 0
IsThreshold x = (x ≡ nan) ⊎ ((lt_float (whole 0) x ≡ true) × (le_float x (whole 100) ≡ true))

pub outside_iff :
    (x : Float) → ((le_float x (whole 0) || lt_float (whole 100) x) ≡ false) ↔ IsThreshold x
outside_iff nan = (λ h. inl refl, λ h. refl)
outside_iff neg_inf = (λ h. cc, λ h. ground arith)
outside_iff pos_inf = (λ h. cc, λ h. ground arith)
outside_iff (over_power n s) = (λ h. inr (ground arith), outside)
  where
    outside :
        IsThreshold (over_power n s)
        → (le_float (over_power n s) (whole 0) || lt_float (whole 100) (over_power n s)) ≡ false
    outside (inl e) = cc
    outside (inr p) = ground arith
