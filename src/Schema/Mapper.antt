-- ===== src/Schema/Mapper.antt =====
-- internal/schema/mapper.go: values to and from what a column of the database holds.
-- A value that implements driver.Valuer, as sql.NullString does, is none of `Value`.
use shock_absorber.Prelude.{
  String, ℤ, Bool, true, false, not, is_zero, List, [], ◌∷◌, Error, errorf, wrapf, Result, ok, err,
  and_then, wrap, if◌then◌else◌,
}
use shock_absorber.Core.{
  IntKind, int, int16, int64, uint32, uint64, Value, nil, bool, integer, float32, float64, string,
  bytes, time, object, array,
}
use shock_absorber.Schema.Types.{
  DbKind, ints, bigints, smallints, floats, doubles, decimals, texts, binaries, moments, flags,
  jsons, unknown, kind_of,
}
use shock_absorber.Schema.Conversions.{Go, Instant, wrap64, wrap16}

-- cannot convert %T to <type>
abbrev pub cannot_convert : String → Error
cannot_convert type = errorf "cannot convert %T to %s" (type ∷ [])

-- An error-free part of a conversion, as a value.
abbrev pub as_value {ℓ} : {A : Type ℓ} → (A → Value) → Result A → Result Value
as_value f (ok a) = ok (f a)
as_value f (err e) = err e

-- The kinds that `toInt16` lists.
abbrev pub fits_to_int16 : IntKind → Bool
fits_to_int16 uint32 = false
fits_to_int16 uint64 = false
fits_to_int16 _ = true

abbrev pub is_default_int : IntKind → Bool
is_default_int int = true
is_default_int int64 = true
is_default_int _ = false

abbrev moment : Instant → Value
moment (s, n) = time s n

-- The formats of `toTime`, in the order in which they are tried.
abbrev pub time_formats : List String
time_formats =
    "2006-01-02T15:04:05Z07:00" ∷ "2006-01-02T15:04:05.999999999Z07:00" ∷ "2006-01-02 15:04:05"
    ∷ "2006-01-02T15:04:05" ∷ "2006-01-02" ∷ []

module _ (go : Go) where
  unfoldable pub to_int : Value → Result Value
  to_int (integer k z) = ok (integer int (wrap64 z))
  to_int (float32 b) = ok (integer int (go.int64_of_float32 b))
  to_int (float64 b) = ok (integer int (go.int64_of_float64 b))
  to_int (string s) =
      as_value (integer int) (wrap "cannot convert string to int" [] (go.parse_int 64 s))
  to_int _ = err (cannot_convert "int")

  unfoldable pub to_int64 : Value → Result Value
  to_int64 (integer k z) = ok (integer int64 (wrap64 z))
  to_int64 (float32 b) = ok (integer int64 (go.int64_of_float32 b))
  to_int64 (float64 b) = ok (integer int64 (go.int64_of_float64 b))
  to_int64 (string s) =
      as_value (integer int64) (wrap "cannot convert string to int64" [] (go.parse_int 64 s))
  to_int64 _ = err (cannot_convert "int64")

  unfoldable pub to_int16 : Value → Result Value
  to_int16 (integer k z) =
      if fits_to_int16 k then ok (integer int16 (wrap16 z)) else err (cannot_convert "int16")
  to_int16 (float32 b) = ok (integer int16 (go.int16_of_float32 b))
  to_int16 (float64 b) = ok (integer int16 (go.int16_of_float64 b))
  to_int16 (string s) =
      as_value (λ z. integer int16 (wrap16 z))
        (wrap "cannot convert string to int16" [] (go.parse_int 16 s))
  to_int16 _ = err (cannot_convert "int16")

  unfoldable pub to_float32 : Value → Result Value
  to_float32 (float32 b) = ok (float32 b)
  to_float32 (float64 b) = ok (float32 (go.float32_of_float64 b))
  to_float32 (integer k z) =
      if is_default_int k
      then ok (float32 (go.float32_of_int z))
      else err (cannot_convert "float32")
  to_float32 (string s) =
      as_value (λ b. float32 (go.float32_of_float64 b))
        (wrap "cannot convert string to float32" [] (go.parse_float 32 s))
  to_float32 _ = err (cannot_convert "float32")

  unfoldable pub to_float64 : Value → Result Value
  to_float64 (float64 b) = ok (float64 b)
  to_float64 (float32 b) = ok (float64 (go.float64_of_float32 b))
  to_float64 (integer k z) =
      if is_default_int k
      then ok (float64 (go.float64_of_int z))
      else err (cannot_convert "float64")
  to_float64 (string s) =
      as_value float64 (wrap "cannot convert string to float64" [] (go.parse_float 64 s))
  to_float64 _ = err (cannot_convert "float64")

  unfoldable pub marshalled : String → List String → Value → Result Value
  marshalled complaint args v =
      as_value (λ b. string (go.bytes_text b)) (wrap complaint args (go.marshal v))

  -- `toString`
  unfoldable pub to_string : Value → Result Value
  unfolding marshalled
  to_string (string s) = ok (string s)
  to_string (bytes bs) = ok (string (go.bytes_text bs))
  to_string (integer k z) = ok (string (go.decimal z))
  to_string (float32 b) = ok (string (go.shortest32 b))
  to_string (float64 b) = ok (string (go.shortest64 b))
  to_string (bool true) = ok (string "true")
  to_string (bool false) = ok (string "false")
  to_string (time s n) = ok (string (go.rfc3339 (s, n)))
  to_string v = marshalled "cannot convert %T to string" [] v

  unfoldable pub to_bytes : Value → Result Value
  to_bytes (bytes bs) = ok (bytes bs)
  to_bytes (string s) = ok (bytes (go.text_bytes s))
  to_bytes _ = err (cannot_convert "[]byte")

  -- The loop of `toTime`: the first format that parses.
  unfoldable pub first_parse : String → List String → Result Value
  first_parse s [] = err (errorf "cannot parse time string: %s" (s ∷ []))
  first_parse s (format ∷ formats) =
      let rest = first_parse s formats in
      elim (go.parse_time format s) [ ok t ↦ ok (moment t) | err e ↦ rest ]

  unfoldable pub to_time : Value → Result Value
  unfolding first_parse
  to_time (time s n) = ok (time s n)
  to_time (string s) = first_parse s time_formats
  to_time (integer int64 z) = ok (time z 0)
  to_time _ = err (cannot_convert "time.Time")

  unfoldable pub numeric_flag : Result ℤ → Error → Result Value
  numeric_flag (ok z) e = ok (bool (not (is_zero z)))
  numeric_flag (err x) e = err (wrapf "cannot convert string to bool" [] e)

  unfoldable pub parsed_flag : String → Result Bool → Result Value
  parsed_flag s (ok b) = ok (bool b)
  parsed_flag s (err e) = numeric_flag (go.parse_int 64 s) e

  unfoldable pub to_bool : Value → Result Value
  unfolding parsed_flag numeric_flag
  to_bool (bool b) = ok (bool b)
  to_bool (integer k z) = ok (bool (not (is_zero z)))
  to_bool (string s) = parsed_flag s (go.parse_bool s)
  to_bool _ = err (cannot_convert "bool")

  -- `toJSON`
  unfoldable pub to_json : Value → Result Value
  unfolding marshalled
  to_json (string s) =
      and_then (wrap "cannot parse JSON string" [] (go.unmarshal (go.text_bytes s)))
        λ _. ok (string s)
  to_json (bytes bs) =
      and_then (wrap "cannot parse JSON bytes" [] (go.unmarshal bs))
        λ _. ok (string (go.bytes_text bs))
  to_json (object fs) = marshalled "cannot marshal map to JSON" [] (object fs)
  to_json (array is) = marshalled "cannot marshal slice to JSON" [] (array is)
  to_json v = marshalled "cannot marshal %T to JSON" [] v

  -- The cases that the two switches share.
  unfoldable pub convert_known : DbKind → Value → Result Value → Result Value
  unfolding to_int to_int64 to_int16 to_float32 to_float64 to_string to_bytes to_time to_bool
      to_json
  convert_known ints v otherwise = to_int v
  convert_known bigints v otherwise = to_int64 v
  convert_known smallints v otherwise = to_int16 v
  convert_known floats v otherwise = to_float32 v
  convert_known doubles v otherwise = to_float64 v
  convert_known decimals v otherwise = to_string v
  convert_known texts v otherwise = to_string v
  convert_known binaries v otherwise = to_bytes v
  convert_known moments v otherwise = to_time v
  convert_known flags v otherwise = to_bool v
  convert_known jsons v otherwise = to_json v
  convert_known unknown v otherwise = otherwise

  -- `ConvertToDBValue`
  unfoldable pub convert_to_db_value : Value → String → Result Value
  unfolding convert_known
  convert_to_db_value nil db_type = ok nil
  convert_to_db_value v db_type = convert_known (kind_of db_type) v (to_string v)

  -- `ConvertFromDBValue`
  unfoldable pub convert_from_db_value : Value → String → Result Value
  unfolding convert_known
  convert_from_db_value nil db_type = ok nil
  convert_from_db_value v db_type = convert_known (kind_of db_type) v (ok v)
