-- ===== src/Schema/Conversions.antt =====
-- Go's conversions between integer types, and what the code takes from the standard packages.
use shock_absorber.Prelude.{
  ℕ, ◌-◌, ◌%◌, ◌^◌, String, ℤ, pos, negsuc, Bool, List, Result, ltb, if◌then◌else◌,
}
use shock_absorber.Core.{Value, Record}

-- The low `w` bits, as a number below 2 ^ w.
abbrev pub low_bits : ℕ → ℤ → ℕ
low_bits w (pos n) = n % 2 ^ w
low_bits w (negsuc n) = 2 ^ w - 1 - n % 2 ^ w

-- The number that a pattern of 64 or 16 bits stands for.
abbrev pub signed : ℕ → ℕ → ℕ → ℤ
signed half whole n = if ltb n half then pos n else negsuc (whole - n - 1)

-- int(v) and int64(v)
unfoldable pub wrap64 : ℤ → ℤ
wrap64 z = signed (2 ^ 63) (2 ^ 64) (low_bits 64 z)

-- int16(v)
unfoldable pub wrap16 : ℤ → ℤ
wrap16 z = signed (2 ^ 15) (2 ^ 16) (low_bits 16 z)

-- The time of the clock: seconds and nanoseconds.
abbrev pub Instant : Type 0
Instant = ℤ × ℕ

-- Floats are their bits. The integers that floats are converted to are what Go's conversion gives.
pub record Go : Type 0 where
  pub int64_of_float32 : ℕ → ℤ
  pub int64_of_float64 : ℕ → ℤ
  pub int16_of_float32 : ℕ → ℤ
  pub int16_of_float64 : ℕ → ℤ
  pub float32_of_float64 : ℕ → ℕ
  pub float64_of_float32 : ℕ → ℕ
  pub float32_of_int : ℤ → ℕ
  pub float64_of_int : ℤ → ℕ
  -- strconv.ParseInt(s, 10, bits), strconv.ParseFloat(s, bits), strconv.ParseBool
  pub parse_int : ℕ → String → Result ℤ
  pub parse_float : ℕ → String → Result ℕ
  pub parse_bool : String → Result Bool
  -- `%d`, `%g` and `%v`
  pub decimal : ℤ → String
  pub shortest32 : ℕ → String
  pub shortest64 : ℕ → String
  pub value_text : Value → String
  -- time.Format(time.RFC3339) and time.Parse
  pub rfc3339 : Instant → String
  -- The text of a time in JSON.
  pub json_time : Instant → String
  pub parse_time : String → String → Result Instant
  -- []byte(s) and string(b)
  pub text_bytes : String → List ℕ
  pub bytes_text : List ℕ → String
  -- json.Marshal, and json.Unmarshal into an interface{} and into a map
  pub marshal : Value → Result (List ℕ)
  pub unmarshal : List ℕ → Result Value
  pub unmarshal_map : List ℕ → Result Record
