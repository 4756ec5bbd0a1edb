-- ===== src/Schema/Ranges.antt =====
-- internal/schema/mapper.go: the integers that a column of a small type is given.
use shock_absorber.Prelude.{
  ℕ, ◌-◌, ◌%◌, ◌<◌, ◌≡◌, ◌↔◌, subst, String, ℤ, pos, negsuc, true, ok, arith,
}
use shock_absorber.Core.{IntKind, int16, integer}
use shock_absorber.Schema.Types.{smallints, kind_of}
use shock_absorber.Schema.Conversions.{Go, signed, wrap16}
use shock_absorber.Schema.Mapper.{fits_to_int16, to_int16, convert_known, convert_to_db_value}

-- The numbers that an int16 holds.
abbrev pub InInt16 : ℤ → Type 0
InInt16 (pos n) = n < 32768
InInt16 (negsuc n) = n < 32768

signed-InInt16 : (n : ℕ) → n < 65536 → InInt16 (signed 32768 65536 n)
signed-InInt16 n h = ground arith

pub wrap16-InInt16 : (z : ℤ) → InInt16 (wrap16 z)
unfolding wrap16
wrap16-InInt16 (pos n) = signed-InInt16 (n % 65536) (omega arith)
wrap16-InInt16 (negsuc n) = signed-InInt16 (65535 - n % 65536) (omega arith)

pub wrap16_id : (z : ℤ) → InInt16 z → wrap16 z ≡ z
unfolding wrap16
wrap16_id (pos n) h = ground arith
wrap16_id (negsuc n) h = ground arith

module _ (go : Go) where
  -- A column of a small integer type is given an integer of any kind that `toInt16` lists without
  -- an error: what it stores is an int16, and is the given integer exactly where that is one.
  pub small_integers_wrap :
      (k : IntKind) (z : ℤ) (type : String)
      → fits_to_int16 k ≡ true
      → kind_of type ≡ smallints
      → (w : ℤ) × (convert_to_db_value go (integer k z) type ≡ ok (integer int16 w))
        × InInt16 w
        × ((w ≡ z) ↔ InInt16 z)
  unfolding convert_to_db_value convert_known to_int16
  small_integers_wrap k z type f small = (
    wrap16 z,
    ground arith,
    wrap16-InInt16 z,
    (λ e. subst InInt16 e (wrap16-InInt16 z), wrap16_id z),
  )
