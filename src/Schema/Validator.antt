-- ===== src/Schema/Validator.antt =====
-- internal/schema/validator.go. The schema of a validator is never nil: each caller tests it first.
use shock_absorber.Prelude.{
  String, not, ◌&&◌, List, [], ◌∷◌, Option, none, some, is_some, lookup, errorf, Done, done, err,
  and_then, wrap, if◌then◌else◌, ◌==◌,
}
use shock_absorber.Core.{Value, nil, is_nil, Record, Column, Schema, find_column}
use shock_absorber.Schema.Conversions.{Go}
use shock_absorber.Schema.Mapper.{convert_to_db_value}

cannot_be_null : String → Done
cannot_be_null name = err (errorf "column '%s' cannot be NULL" (name ∷ []))

-- record[name], which is nil where the key is missing.
abbrev pub value_or_nil : Option Value → Value
value_or_nil none = nil
value_or_nil (some v) = v

module _ (go : Go) where
  -- `validateColumnType`
  unfoldable pub validate_column_type : Column → Value → Done
  validate_column_type column value =
      and_then
        (wrap "type mismatch: expected %s, got %T" (column.type ∷ [])
          (convert_to_db_value go value column.type))
        λ _. done

  -- The check of a value that a column is given, or of nil.
  unfoldable pub validate_value : Column → String → Value → Done
  unfolding validate_column_type cannot_be_null
  validate_value column name value =
      if is_nil value
      then if column.nullable then done else cannot_be_null name
      else wrap "column '%s'" (name ∷ []) (validate_column_type column value)

  -- The loop of `ValidateRecord`.
  unfoldable pub validate_all : List Column → Record → Done
  unfolding validate_value
  validate_all [] r = done
  validate_all (c ∷ cs) r =
      and_then (validate_value c c.name (value_or_nil (lookup c.name r))) λ _. validate_all cs r

  -- `ValidateRecord`
  unfoldable pub validate_record : Schema → Option Record → Done
  unfolding validate_all
  validate_record schema none = err (errorf "record cannot be nil" [])
  validate_record schema (some r) =
      if not (schema.primary_key == "") && not (is_some (lookup schema.primary_key r))
      then err (errorf "missing required primary key: %s" (schema.primary_key ∷ []))
      else validate_all schema.columns r

  validate_found : Option Column → String → Value → Done
  unfolding validate_value
  validate_found none name value = done
  validate_found (some column) name value = validate_value column name value

  -- The loop of `ValidatePartialRecord`.
  unfoldable pub validate_each : Schema → Record → Done
  unfolding validate_found
  validate_each schema [] = done
  validate_each schema ((name, value) ∷ rest) =
      and_then (validate_found (find_column schema.columns name) name value)
        λ _. validate_each schema rest

  -- `ValidatePartialRecord`
  unfoldable pub validate_partial_record : Schema → Option Record → Done
  unfolding validate_each
  validate_partial_record schema none = err (errorf "record cannot be nil" [])
  validate_partial_record schema (some r) = validate_each schema r

  unfoldable pub validate_key : String → Option Column → Value → Done
  unfolding validate_column_type
  validate_key name none key =
      err (errorf "primary key column '%s' not found in schema" (name ∷ []))
  validate_key name (some column) key = validate_column_type column key

  -- `ValidatePrimaryKey`
  unfoldable pub validate_primary_key : Schema → Value → Done
  unfolding validate_key
  validate_primary_key schema key =
      if is_nil key
      then err (errorf "primary key cannot be nil" [])
      else if schema.primary_key == ""
      then err (errorf "schema has no primary key defined" [])
      else validate_key schema.primary_key (find_column schema.columns schema.primary_key) key
