-- ===== src/Tests/Schemas.antt =====
-- Runs of the translator of internal/schema on small records.
use shock_absorber.Prelude.{
  ℕ, ◌+◌, ◌*◌, ◌/◌, ◌%◌, ◌≡◌, ◌↔◌, ◌⊎◌, refl, String, ℤ, pos, negsuc, num_eq, Bool, true, false,
  List, [], ◌∷◌, ◌++◌, map, lookup, none, some, errorf, Result, ok, err, done, if◌then◌else◌,
}
use shock_absorber.Core.{
  Value, nil, bool, integer, string, int, int16, int64, Record, Column, Schema, find_column,
}
use shock_absorber.Schema.Types.{kind_of, kind_of_base, base_type, map_db_type_to_go_type}
use shock_absorber.Schema.Typing.{HasType, stored_as}
use shock_absorber.Schema.Typed.{convert_to_db_value-HasType}
use shock_absorber.Schema.Conversions.{Go, wrap64}
use shock_absorber.Schema.Mapper.{convert_to_db_value, convert_known, to_int16, cannot_convert}
use shock_absorber.Schema.Ranges.{InInt16, small_integers_wrap}
use shock_absorber.Schema.Validator.{
  validate_record, validate_all, validate_value, validate_partial_record, validate_primary_key,
}
use shock_absorber.Schema.Translator.{new_translator, to_db, to_db_update, update_parts}
use shock_absorber.Schema.Statements.{
  kept_columns, column_value, entry_value, valid_record_inserts, update_statement,
}

abbrev no_value {ℓ} : {A : Type ℓ} → Result A
no_value = err (errorf "not here" [])

-- Floats whose bits are twice the number, and one more below zero.
abbrev pub float_of : ℤ → ℕ
float_of (pos n) = 2 * n
float_of (negsuc n) = 2 * n + 1

abbrev pub integer_of : ℕ → ℤ
integer_of b = if num_eq (b % 2) 0 then pos (b / 2) else negsuc (b / 2)

abbrev pub five : Value → String
five v = "5"

abbrev pub sample_go : Result Record → Go
sample_go decoded = record {
  int64_of_float32 = integer_of;
  int64_of_float64 = integer_of;
  int16_of_float32 = integer_of;
  int16_of_float64 = integer_of;
  float32_of_float64 = λ b. b;
  float64_of_float32 = λ b. b;
  float32_of_int = float_of;
  float64_of_int = float_of;
  parse_int = λ bits s. no_value;
  parse_float = λ bits s. no_value;
  parse_bool = λ s. no_value;
  decimal = λ z. "5";
  shortest32 = λ b. "5";
  shortest64 = λ b. "5";
  value_text = five;
  rfc3339 = λ i. "now";
  json_time = λ i. "now";
  parse_time = λ format s. no_value;
  text_bytes = λ s. [];
  bytes_text = λ b. "";
  marshal = λ v. ok (3 ∷ 4 ∷ []);
  unmarshal = λ b. no_value;
  unmarshal_map = λ b. decoded;
}

abbrev go : Go
go = sample_go no_value

abbrev column : String → String → Bool → Column
column name type nullable = record { name = name; type = type; nullable = nullable; default = nil }

-- An identifier, and a name and a nickname that may be missing.
abbrev pub people : Schema
people = record {
  table_name = "people";
  primary_key = "id";
  columns =
      column "id" "BIGINT" false
      ∷ column "name" "varchar(20)" false
      ∷ column "nick" "TEXT" true
      ∷ [];
  indexes = [];
}

abbrev pub ann : Record
ann = ("id", integer int (pos 5)) ∷ ("name", string "Ann") ∷ []

small_integers_wrap_example :
    (w : ℤ) × (convert_to_db_value go (integer int (pos 70000)) "SMALLINT" ≡ ok (integer int16 w))
    × InInt16 w
    × ((w ≡ pos 70000) ↔ InInt16 (pos 70000))
unfolding kind_of base_type kind_of_base
small_integers_wrap_example = small_integers_wrap go int (pos 70000) "SMALLINT" refl refl

pub ann_valid :
    (decoded : Result Record) → validate_record (sample_go decoded) people (some ann) ≡ done
unfolding validate_record validate_all validate_value convert_to_db_value convert_known kind_of
    lookup
ann_valid decoded = refl

valid_record_inserts_example :
    (args : List Value) × (to_db (new_translator go) (some ann) people
      ≡ ok ("INSERT INTO people (id, name) VALUES (?, ?)", args))
    × (map (column_value go ann) (kept_columns ann people.columns) ≡ map ok args)
unfolding new_translator lookup
valid_record_inserts_example =
    valid_record_inserts (new_translator go) people ann (ann_valid no_value) (λ e. cc)

update_statement_example :
    (lookup "id" (("name", string "Bea") ∷ []) ≡ none)
    × (c : Column) × (find_column people.columns "id" ≡ some c)
    × (◌≡◌ {A = String} "UPDATE people SET name = ? WHERE id = ?"
        "UPDATE people SET name = ? WHERE id = ?")
    × (k : Value) × (values : List Value) × (convert_to_db_value go (integer int (pos 5)) c.type
        ≡ ok k)
    × (string "Bea" ∷ integer int64 (pos 5) ∷ [] ≡ values ++ k ∷ [])
    × (map (entry_value go people.columns) (("name", string "Bea") ∷ []) ≡ map ok values)
unfolding new_translator to_db_update update_parts convert_to_db_value convert_known kind_of lookup
    validate_partial_record validate_primary_key wrap64
update_statement_example =
    update_statement (new_translator go) (integer int (pos 5)) people (("name", string "Bea") ∷ [])
      "UPDATE people SET name = ? WHERE id = ?" (string "Bea" ∷ integer int64 (pos 5) ∷ []) refl

-- A column of type TINYINT(1) takes no boolean: what stands before the parenthesis decides.
tinyint_refuses_bool :
    convert_to_db_value go (bool true) "TINYINT(1)" ≡ err (cannot_convert "int16")
unfolding convert_to_db_value convert_known to_int16 kind_of
tinyint_refuses_bool = refl

convert_to_db_value-HasType_example :
    ((integer int64 (pos 5)) ≡ nil)
    ⊎ HasType (integer int64 (pos 5)) (stored_as (map_db_type_to_go_type "BIGINT"))
unfolding kind_of base_type kind_of_base convert_to_db_value wrap64
convert_to_db_value-HasType_example =
    convert_to_db_value-HasType go (integer int (pos 5)) (integer int64 (pos 5)) "BIGINT" refl
