-- ===== src/Schema/Typing.antt =====
-- The Go types of what internal/schema/mapper.go makes of the values for a column.
use shock_absorber.Prelude.{
  ℕ, String, ℤ, ◌≡◌, subst, Bool, true, false, List, [], ◌∷◌, Result, ok, err, ok_injective, Error,
  wrap, and_then, if◌then◌else◌,
}
use shock_absorber.Core.{
  int, int8, int16, int32, int64, uint, uint8, uint16, uint32, uint64, Value, nil, bool, integer,
  float32, float64, string, bytes, time, object, array, Fields,
}
use shock_absorber.Schema.Types.{
  DbKind, ints, bigints, smallints, floats, doubles, decimals, texts, binaries, moments, flags,
  jsons, unknown, GoType, go_type_of, go_int, go_int64, go_int16, go_float32, go_float64, go_string,
  go_bytes, go_time, go_bool, go_map,
}
use shock_absorber.Schema.Mapper.{
  as_value, fits_to_int16, is_default_int, to_int, to_int64, to_int16, to_float32, to_float64,
  to_string, marshalled, to_bytes, first_parse, time_formats, to_time, numeric_flag, parsed_flag,
  to_bool, to_json, convert_known,
}
use shock_absorber.Schema.Conversions.{Go}

-- The dynamic type of a value.
pub data HasType : Value → GoType → Type 0 where
  an_int : {z : ℤ} → HasType (integer int z) go_int
  an_int64 : {z : ℤ} → HasType (integer int64 z) go_int64
  an_int16 : {z : ℤ} → HasType (integer int16 z) go_int16
  a_float32 : {b : ℕ} → HasType (float32 b) go_float32
  a_float64 : {b : ℕ} → HasType (float64 b) go_float64
  a_string : {s : String} → HasType (string s) go_string
  some_bytes : {bs : List ℕ} → HasType (bytes bs) go_bytes
  a_time : {z : ℤ} {n : ℕ} → HasType (time z n) go_time
  a_bool : {b : Bool} → HasType (bool b) go_bool
  a_map : {fs : Fields} → HasType (object fs) go_map

-- A conversion that fails or gives a value of the type.
abbrev pub Gives : GoType → Result Value → Type 0
Gives t (ok v) = HasType v t
Gives t (err e) = Unit

pub Gives-eq_ok : (t : GoType) (r : Result Value) (v : Value) → Gives t r → r ≡ ok v → HasType v t
Gives-eq_ok t (ok w) v h e = subst (λ v. HasType v t) (ok_injective w v e) h
Gives-eq_ok t (err x) v h e = cc

abbrev pub stored_as : GoType → GoType
stored_as go_map = go_string
stored_as t = t

as_value-Gives :
    {A : Type 0} (t : GoType) (f : A → Value) (c : String) (xs : List String) (r : Result A)
    → ((a : A) → HasType (f a) t)
    → Gives t (as_value f (wrap c xs r))
as_value-Gives t f c xs (ok a) h = h a
as_value-Gives t f c xs (err e) h = tt

module _ (go : Go) where
  to_int-Gives : (v : Value) → Gives go_int (to_int go v)
  unfolding to_int
  to_int-Gives nil = tt
  to_int-Gives (bool b) = tt
  to_int-Gives (integer k z) = an_int
  to_int-Gives (float32 b) = an_int
  to_int-Gives (float64 b) = an_int
  to_int-Gives (string s) = as_value-Gives go_int (integer int) _ _ (go.parse_int 64 s) λ a. an_int
  to_int-Gives (bytes bs) = tt
  to_int-Gives (time z n) = tt
  to_int-Gives (object fs) = tt
  to_int-Gives (array is) = tt

  to_int64-Gives : (v : Value) → Gives go_int64 (to_int64 go v)
  unfolding to_int64
  to_int64-Gives nil = tt
  to_int64-Gives (bool b) = tt
  to_int64-Gives (integer k z) = an_int64
  to_int64-Gives (float32 b) = an_int64
  to_int64-Gives (float64 b) = an_int64
  to_int64-Gives (string s) =
      as_value-Gives go_int64 (integer int64) _ _ (go.parse_int 64 s) λ a. an_int64
  to_int64-Gives (bytes bs) = tt
  to_int64-Gives (time z n) = tt
  to_int64-Gives (object fs) = tt
  to_int64-Gives (array is) = tt

  if-Gives :
      (t : GoType) (b : Bool) (v : Value) (e : Error)
      → HasType v t
      → Gives t (if b then ok v else err e)
  if-Gives t true v e h = h
  if-Gives t false v e h = tt

  to_int16-Gives : (v : Value) → Gives go_int16 (to_int16 go v)
  unfolding to_int16
  to_int16-Gives nil = tt
  to_int16-Gives (bool b) = tt
  to_int16-Gives (integer k z) = if-Gives go_int16 (fits_to_int16 k) _ _ an_int16
  to_int16-Gives (float32 b) = an_int16
  to_int16-Gives (float64 b) = an_int16
  to_int16-Gives (string s) = as_value-Gives go_int16 _ _ _ (go.parse_int 16 s) λ a. an_int16
  to_int16-Gives (bytes bs) = tt
  to_int16-Gives (time z n) = tt
  to_int16-Gives (object fs) = tt
  to_int16-Gives (array is) = tt

  to_float32-Gives : (v : Value) → Gives go_float32 (to_float32 go v)
  unfolding to_float32
  to_float32-Gives nil = tt
  to_float32-Gives (bool b) = tt
  to_float32-Gives (integer k z) = if-Gives go_float32 (is_default_int k) _ _ a_float32
  to_float32-Gives (float32 b) = a_float32
  to_float32-Gives (float64 b) = a_float32
  to_float32-Gives (string s) = as_value-Gives go_float32 _ _ _ (go.parse_float 32 s) λ a. a_float32
  to_float32-Gives (bytes bs) = tt
  to_float32-Gives (time z n) = tt
  to_float32-Gives (object fs) = tt
  to_float32-Gives (array is) = tt

  to_float64-Gives : (v : Value) → Gives go_float64 (to_float64 go v)
  unfolding to_float64
  to_float64-Gives nil = tt
  to_float64-Gives (bool b) = tt
  to_float64-Gives (integer k z) = if-Gives go_float64 (is_default_int k) _ _ a_float64
  to_float64-Gives (float32 b) = a_float64
  to_float64-Gives (float64 b) = a_float64
  to_float64-Gives (string s) =
      as_value-Gives go_float64 float64 _ _ (go.parse_float 64 s) λ a. a_float64
  to_float64-Gives (bytes bs) = tt
  to_float64-Gives (time z n) = tt
  to_float64-Gives (object fs) = tt
  to_float64-Gives (array is) = tt

  marshalled-Gives :
      (c : String) (xs : List String) (v : Value) → Gives go_string (marshalled go c xs v)
  unfolding marshalled
  marshalled-Gives c xs v =
      as_value-Gives go_string (λ b. string (go.bytes_text b)) c xs (go.marshal v) λ b. a_string

  to_string-Gives : (v : Value) → Gives go_string (to_string go v)
  unfolding to_string
  to_string-Gives nil = marshalled-Gives "cannot convert %T to string" [] nil
  to_string-Gives (bool true) = a_string
  to_string-Gives (bool false) = a_string
  to_string-Gives (integer k z) = a_string
  to_string-Gives (float32 b) = a_string
  to_string-Gives (float64 b) = a_string
  to_string-Gives (string s) = a_string
  to_string-Gives (bytes bs) = a_string
  to_string-Gives (time z n) = a_string
  to_string-Gives (object fs) = marshalled-Gives "cannot convert %T to string" [] (object fs)
  to_string-Gives (array is) = marshalled-Gives "cannot convert %T to string" [] (array is)

  to_bytes-Gives : (v : Value) → Gives go_bytes (to_bytes go v)
  unfolding to_bytes
  to_bytes-Gives nil = tt
  to_bytes-Gives (bool b) = tt
  to_bytes-Gives (integer k z) = tt
  to_bytes-Gives (float32 b) = tt
  to_bytes-Gives (float64 b) = tt
  to_bytes-Gives (string s) = some_bytes
  to_bytes-Gives (bytes bs) = some_bytes
  to_bytes-Gives (time z n) = tt
  to_bytes-Gives (object fs) = tt
  to_bytes-Gives (array is) = tt

  first_parse-Gives :
      (s : String) (formats : List String) → Gives go_time (first_parse go s formats)
  unfolding first_parse
  first_parse-Gives s [] = tt
  first_parse-Gives s (format ∷ formats) =
      let rest = first_parse go s formats in
      elim (go.parse_time format s)
        as (λ r. Gives go_time (elim r [ ok t ↦ ok (time t.0 t.1) | err e ↦ rest ])) [
          | ok t ↦ a_time
          | err e ↦ first_parse-Gives s formats
        ]

  to_time-Gives : (v : Value) → Gives go_time (to_time go v)
  unfolding to_time
  to_time-Gives nil = tt
  to_time-Gives (bool b) = tt
  to_time-Gives (integer int z) = tt
  to_time-Gives (integer int8 z) = tt
  to_time-Gives (integer int16 z) = tt
  to_time-Gives (integer int32 z) = tt
  to_time-Gives (integer int64 z) = a_time
  to_time-Gives (integer uint z) = tt
  to_time-Gives (integer uint8 z) = tt
  to_time-Gives (integer uint16 z) = tt
  to_time-Gives (integer uint32 z) = tt
  to_time-Gives (integer uint64 z) = tt
  to_time-Gives (float32 b) = tt
  to_time-Gives (float64 b) = tt
  to_time-Gives (string s) = first_parse-Gives s time_formats
  to_time-Gives (bytes bs) = tt
  to_time-Gives (time z n) = a_time
  to_time-Gives (object fs) = tt
  to_time-Gives (array is) = tt

  numeric_flag-Gives : (r : Result ℤ) (e : Error) → Gives go_bool (numeric_flag go r e)
  unfolding numeric_flag
  numeric_flag-Gives (ok z) e = a_bool
  numeric_flag-Gives (err x) e = tt

  parsed_flag-Gives : (s : String) (r : Result Bool) → Gives go_bool (parsed_flag go s r)
  unfolding parsed_flag
  parsed_flag-Gives s (ok b) = a_bool
  parsed_flag-Gives s (err e) = numeric_flag-Gives (go.parse_int 64 s) e

  to_bool-Gives : (v : Value) → Gives go_bool (to_bool go v)
  unfolding to_bool
  to_bool-Gives nil = tt
  to_bool-Gives (bool b) = a_bool
  to_bool-Gives (integer k z) = a_bool
  to_bool-Gives (float32 b) = tt
  to_bool-Gives (float64 b) = tt
  to_bool-Gives (string s) = parsed_flag-Gives s (go.parse_bool s)
  to_bool-Gives (bytes bs) = tt
  to_bool-Gives (time z n) = tt
  to_bool-Gives (object fs) = tt
  to_bool-Gives (array is) = tt

  checked-Gives :
      (c : String) (r : Result Value) (v : Value)
      → HasType v go_string
      → Gives go_string (and_then (wrap c [] r) λ _. ok v)
  checked-Gives c (ok u) v h = h
  checked-Gives c (err e) v h = tt

  to_json-Gives : (v : Value) → Gives go_string (to_json go v)
  unfolding to_json
  to_json-Gives nil = marshalled-Gives "cannot marshal %T to JSON" [] nil
  to_json-Gives (bool b) = marshalled-Gives "cannot marshal %T to JSON" [] (bool b)
  to_json-Gives (integer k z) = marshalled-Gives "cannot marshal %T to JSON" [] (integer k z)
  to_json-Gives (float32 b) = marshalled-Gives "cannot marshal %T to JSON" [] (float32 b)
  to_json-Gives (float64 b) = marshalled-Gives "cannot marshal %T to JSON" [] (float64 b)
  to_json-Gives (string s) =
      checked-Gives "cannot parse JSON string" (go.unmarshal (go.text_bytes s)) (string s) a_string
  to_json-Gives (bytes bs) =
      checked-Gives "cannot parse JSON bytes" (go.unmarshal bs) (string (go.bytes_text bs)) a_string
  to_json-Gives (time z n) = marshalled-Gives "cannot marshal %T to JSON" [] (time z n)
  to_json-Gives (object fs) = marshalled-Gives "cannot marshal map to JSON" [] (object fs)
  to_json-Gives (array is) = marshalled-Gives "cannot marshal slice to JSON" [] (array is)

  pub convert_known-Gives :
      (k : DbKind) (v : Value)
      → Gives (stored_as (go_type_of k)) (convert_known go k v (to_string go v))
  unfolding convert_known
  convert_known-Gives ints v = to_int-Gives v
  convert_known-Gives bigints v = to_int64-Gives v
  convert_known-Gives smallints v = to_int16-Gives v
  convert_known-Gives floats v = to_float32-Gives v
  convert_known-Gives doubles v = to_float64-Gives v
  convert_known-Gives decimals v = to_string-Gives v
  convert_known-Gives texts v = to_string-Gives v
  convert_known-Gives binaries v = to_bytes-Gives v
  convert_known-Gives moments v = to_time-Gives v
  convert_known-Gives flags v = to_bool-Gives v
  convert_known-Gives jsons v = to_json-Gives v
  convert_known-Gives unknown v = to_string-Gives v
