-- ===== src/Schema/RoundTrip.antt =====
-- internal/schema/translator.go: what `FromKV` makes of the text that `ToKV` made.
use shock_absorber.Prelude.{
  ℕ, ◌≡◌, ◌<◌, ◌≤◌, refl, String, ℤ, pos, negsuc, Bool, List, [], ◌∷◌, map, All, some, ok, done,
  lookup,
}
use shock_absorber.Core.{
  Value, nil, bool, integer, float64, string, time, object, int, int16, int64, Record, Column,
  Schema, find_column,
}
use shock_absorber.Store.{Bytes}
use shock_absorber.Schema.Conversions.{Go}
use shock_absorber.Schema.Types.{
  DbKind, ints, bigints, smallints, doubles, decimals, texts, moments, flags, unknown, kind_of,
}
use shock_absorber.Schema.Ranges.{InInt16}
use shock_absorber.Schema.Mapper.{
  to_int, to_int64, to_int16, to_float64, to_string, to_bool, to_time, first_parse, convert_known,
  convert_to_db_value, convert_from_db_value,
}
use shock_absorber.Schema.Translator.{
  converted, convert_entries, type_of, Translator, fields_of, stored_under, to_kv, from_kv,
}
use shock_absorber.Schema.Validator.{validate_record}

-- The integers that a float64 holds exactly.
abbrev pub Exact : ℤ → Type 0
Exact (pos n) = n ≤ 9007199254740992
Exact (negsuc n) = n < 9007199254740992

-- What Go says of conversions between integers and floats.
pub record GoLaws (go : Go) : Type 0 where
  pub exact_int64 : (z : ℤ) → Exact z → go.int64_of_float64 (go.float64_of_int z) ≡ z
  pub exact_int16 : (z : ℤ) → InInt16 z → go.int16_of_float64 (go.float64_of_int z) ≡ z

-- What JSON makes of nil, a boolean, a string, a number or a time, encoded and decoded.
abbrev pub json_image : Go → Value → Value
json_image go (integer k z) = float64 (go.float64_of_int z)
json_image go (time s n) = string (go.json_time (s, n))
json_image go v = v

-- The values of a column of a kind that JSON keeps apart; a time, where the format time.RFC3339
-- parses its JSON text.
pub data KeptByJson (go : Go) : DbKind → Value → Type 0 where
  kept_nil : {k : DbKind} → KeptByJson go k nil
  kept_int : (z : ℤ) → Exact z → KeptByJson go ints (integer int z)
  kept_int64 : (z : ℤ) → Exact z → KeptByJson go bigints (integer int64 z)
  kept_int16 : (z : ℤ) → InInt16 z → KeptByJson go smallints (integer int16 z)
  kept_double : (b : ℕ) → KeptByJson go doubles (float64 b)
  kept_decimal : (s : String) → KeptByJson go decimals (string s)
  kept_text : (s : String) → KeptByJson go texts (string s)
  kept_flag : (b : Bool) → KeptByJson go flags (bool b)
  kept_time :
      (s : ℤ) (n : ℕ)
      → go.parse_time "2006-01-02T15:04:05Z07:00" (go.json_time (s, n)) ≡ ok (s, n)
      → KeptByJson go moments (time s n)
  kept_other : (s : String) → KeptByJson go unknown (string s)

abbrev pub AllKept : Go → List Column → Record → Type 0
AllKept go columns r = All (λ e. KeptByJson go (kind_of (type_of (find_column columns e.0))) e.1) r

module _ (go : Go) (laws : GoLaws go) where
  decoded_value :
      (name : String) (type : String) (k : DbKind) (v : Value)
      → kind_of type ≡ k
      → KeptByJson go k v
      → converted (convert_from_db_value go) name (json_image go v) type ≡ ok v
  unfolding converted convert_from_db_value convert_known to_int to_int64 to_int16 to_float64
      to_string to_time to_bool first_parse
  decoded_value name type _ _ e kept_nil = refl
  decoded_value name type _ _ e (kept_int z small) = rw (e, laws.exact_int64 z small) refl
  decoded_value name type _ _ e (kept_int64 z small) = rw (e, laws.exact_int64 z small) refl
  decoded_value name type _ _ e (kept_int16 z small) = rw (e, laws.exact_int16 z small) refl
  decoded_value name type _ _ e (kept_double b) = rw e refl
  decoded_value name type _ _ e (kept_decimal s) = rw e refl
  decoded_value name type _ _ e (kept_text s) = rw e refl
  decoded_value name type _ _ e (kept_flag b) = rw e refl
  decoded_value name type _ _ e (kept_time s n parsed) = rw (e, parsed) refl
  decoded_value name type _ _ e (kept_other s) = rw e refl

  pub decoded_entries :
      (columns : List Column) (stored : Record)
      → AllKept go columns stored
      → convert_entries
          (convert_from_db_value go)
          columns
          (map (λ e. (e.0, json_image go e.1)) stored)
        ≡ ok stored
  unfolding convert_entries
  decoded_entries columns [] kept = refl
  decoded_entries columns ((name, v) ∷ rest) (first, kept) =
      rw
        (
          decoded_value name (type_of (find_column columns name)) _ v refl first,
          decoded_entries columns rest kept,
        )
        refl

module _ (t : Translator) where
  pub to_kv-valid :
      (schema : Schema) (r stored : Record) (key : Value) (text : Bytes)
      → validate_record t.go schema (some r) ≡ done
      → lookup schema.primary_key r ≡ some key
      → convert_entries (convert_to_db_value t.go) schema.columns r ≡ ok stored
      → t.go.marshal (object (fields_of stored)) ≡ ok text
      → to_kv t (some r) schema ≡ ok (t.format_key schema.table_name key, text)
  unfolding to_kv stored_under
  to_kv-valid schema r stored key text valid there conversion encoded =
      rw (valid, there, conversion, encoded) refl

module _ (t : Translator) (laws : GoLaws t.go) where
  -- A record that passes the tests has a text and a key, and the text of its converted values is
  -- read back as exactly these values, where each is one that JSON keeps apart for its column (an
  -- integer of at most 2^53, a float64, a text, a boolean, a time, nil) and JSON decodes the text
  -- to the images of the values.
  pub stored_then_decoded :
      (schema : Schema) (r stored : Record) (key : Value) (bytes : Bytes)
      → validate_record t.go schema (some r) ≡ done
      → lookup schema.primary_key r ≡ some key
      → convert_entries (convert_to_db_value t.go) schema.columns r ≡ ok stored
      → AllKept t.go schema.columns stored
      → t.go.marshal (object (fields_of stored)) ≡ ok bytes
      → t.go.unmarshal_map bytes ≡ ok (map (λ e. (e.0, json_image t.go e.1)) stored)
      → let name = t.format_key schema.table_name key in
        (to_kv t (some r) schema ≡ ok (name, bytes))
        × (from_kv t name (some bytes) schema ≡ ok stored)
  unfolding from_kv
  stored_then_decoded schema r stored key bytes valid there conversion kept encoded decoded = (
    to_kv-valid t schema r stored key bytes valid there conversion encoded,
    rw decoded (decoded_entries t.go laws schema.columns stored kept),
  )
