-- ===== src/Write/Validator.antt =====
-- internal/write/validator.go. A validator without a schema is left out: `ValidateCreate` and
-- `ValidateUpdate` dereference the schema before they test it.
use shock_absorber.Prelude.{
  String, Bool, true, false, not, ◌&&◌, ◌||◌, List, [], ◌∷◌, Option, none, some, is_some, lookup,
  Error, errorf, wrapf, Done, done, err, and_then, if◌then◌else◌, ◌==◌,
}
use shock_absorber.Core.{
  int, int8, int64, Value, bool, integer, float32, float64, string, bytes, time, is_nil, Record,
  Column, Schema, find_column, OperationType, create, update, delete, other,
}

abbrev pub err_invalid_record : Error
err_invalid_record = errorf "invalid record" []

abbrev pub err_missing_primary_key : Error
err_missing_primary_key = errorf "missing primary key" []

abbrev pub err_invalid_operation_type : Error
err_invalid_operation_type = errorf "invalid operation type" []

abbrev one_of : String → List String → Bool
one_of s [] = false
one_of s (t ∷ ts) = s == t || one_of s ts

abbrev is_numeric : Value → Bool
is_numeric (integer kind n) = true
is_numeric (float32 bits) = true
is_numeric (float64 bits) = true
is_numeric _ = false

abbrev is_text : Value → Bool
is_text (string s) = true
is_text (bytes bs) = true
is_text _ = false

-- A time.Time has the method `Unix`.
abbrev is_moment : Value → Bool
is_moment (string s) = true
is_moment (integer int64 n) = true
is_moment (time seconds nanoseconds) = true
is_moment _ = false

abbrev is_flag : Value → Bool
is_flag (bool b) = true
is_flag (integer int n) = true
is_flag (integer int8 n) = true
is_flag _ = false

expects : Bool → String → String → Done
expects true message field = done
expects false message field = err (wrapf message (field ∷ []) err_invalid_record)

-- `validateType`
unfoldable pub validate_type : String → Value → Column → Done
unfolding expects
validate_type field value column =
    if one_of column.type ("INT" ∷ "INTEGER" ∷ "BIGINT" ∷ "SMALLINT" ∷ "TINYINT" ∷ [])
    then expects (is_numeric value) "%w: column '%s' expects numeric type, got %T" field
    else if one_of column.type ("VARCHAR" ∷ "TEXT" ∷ "CHAR" ∷ [])
    then expects (is_text value) "%w: column '%s' expects string type, got %T" field
    else if one_of column.type ("TIMESTAMP" ∷ "DATETIME" ∷ "DATE" ∷ [])
    then expects (is_moment value) "%w: column '%s' expects timestamp type, got %T" field
    else if one_of column.type ("BOOLEAN" ∷ "BOOL" ∷ "TINYINT(1)" ∷ [])
    then expects (is_flag value) "%w: column '%s' expects boolean type, got %T" field
    else done

-- The body of the loop of `validateColumns`; a field that no column has is accepted.
unfoldable pub validate_field : Schema → String → Value → Done
unfolding validate_type
validate_field schema field value = elim (find_column schema.columns field) [
  | none ↦ done
  | some column ↦
      if is_nil value
      then if column.nullable
        then done
        else err (wrapf "%w: column '%s' cannot be NULL" (field ∷ []) err_invalid_record)
      else validate_type field value column
]

-- `validateColumns`; which of several errors comes first depends on the order of the map.
unfoldable pub validate_columns : Schema → Record → Done
unfolding validate_field
validate_columns schema [] = done
validate_columns schema ((field, value) ∷ rest) =
    and_then (validate_field schema field value) λ _. validate_columns schema rest

-- `ValidateCreate`
unfoldable pub validate_create : Schema → Option Record → Done
unfolding validate_columns
validate_create schema none = err (wrapf "%w: record cannot be nil" [] err_invalid_record)
validate_create schema (some r) =
    if not (schema.primary_key == "") && not (is_some (lookup schema.primary_key r))
    then err
        (wrapf "%w: primary key '%s' is required" (schema.primary_key ∷ []) err_missing_primary_key)
    else validate_columns schema r

unfoldable pub validate_updates : Schema → Record → Done
unfolding validate_columns
validate_updates schema [] = err (wrapf "%w: updates cannot be empty" [] err_invalid_record)
validate_updates schema (u ∷ us) =
    if not (schema.primary_key == "") && is_some (lookup schema.primary_key (u ∷ us))
    then err
        (wrapf "%w: cannot update primary key '%s'" (schema.primary_key ∷ []) err_invalid_record)
    else validate_columns schema (u ∷ us)

-- `ValidateUpdate`
unfoldable pub validate_update : Schema → Value → Option Record → Done
unfolding validate_updates
validate_update schema key none =
    if is_nil key
    then err (wrapf "%w: key cannot be nil" [] err_invalid_record)
    else err (wrapf "%w: updates cannot be empty" [] err_invalid_record)
validate_update schema key (some updates) =
    if is_nil key
    then err (wrapf "%w: key cannot be nil" [] err_invalid_record)
    else validate_updates schema updates

-- `ValidateDelete`
unfoldable pub validate_delete : Value → Done
validate_delete key =
    if is_nil key then err (wrapf "%w: key cannot be nil" [] err_invalid_record) else done

-- `ValidateOperationType`
unfoldable pub validate_operation_type : OperationType → Done
validate_operation_type create = done
validate_operation_type update = done
validate_operation_type delete = done
validate_operation_type (other name) = err (wrapf "%w: '%s'" (name ∷ []) err_invalid_operation_type)
