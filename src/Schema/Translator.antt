-- ===== src/Schema/Translator.antt =====
-- internal/schema/translator.go. A schema that is passed is never nil in the repository's calls, and
-- is none of `Option`. A loop over a Go map goes through the association list in its order, which
-- decides only the order of the parts of an UPDATE and which of several errors is the one returned.
use shock_absorber.Prelude.{
  String, not, ◌&&◌, List, [], ◌∷◌, map, length, Option, none, some, is_some, lookup, ◌++◌, errorf,
  Result, ok, err, and_then, wrap, if◌then◌else◌, sprintf,
}
use shock_absorber.Core.{
  Value, nil, is_nil, object, Fields, no_fields, field, Record, Column, Schema, find_column,
}
use shock_absorber.Store.{Bytes}
use shock_absorber.Database.{SchemaTranslator, scan}
use shock_absorber.Schema.Conversions.{Go}
use shock_absorber.Schema.Mapper.{convert_to_db_value, convert_from_db_value}
use shock_absorber.Schema.Validator.{
  validate_record, validate_partial_record, validate_primary_key, value_or_nil,
}

-- The map `kvRecord` as an `interface{}`.
abbrev pub fields_of : Record → Fields
fields_of [] = no_fields
fields_of ((name, v) ∷ rest) = field name v (fields_of rest)

-- strings.Join(parts, ", ")
abbrev pub comma_joined : List String → String
comma_joined [] = ""
comma_joined (x ∷ []) = x
comma_joined (x ∷ y ∷ rest) = sprintf (x ∷ ", " ∷ comma_joined (y ∷ rest) ∷ [])

abbrev pub type_of : Option Column → String
type_of none = ""
type_of (some column) = column.type

-- What `convert` does to a value of a column that is not nil.
unfoldable pub converted : (Value → String → Result Value) → String → Value → String → Result Value
converted convert name value type =
    if is_nil value
    then ok nil
    else wrap "failed to convert value for column '%s'" (name ∷ []) (convert value type)

-- The loops of `ToKV` and `FromKV`.
unfoldable pub convert_entries :
    (Value → String → Result Value) → List Column → Record → Result Record
unfolding converted
convert_entries convert columns [] = ok []
convert_entries convert columns ((name, value) ∷ rest) =
    and_then (converted convert name value (type_of (find_column columns name)))
      λ v. and_then (convert_entries convert columns rest) λ vs. ok ((name, v) ∷ vs)

-- The loop of `ToDB`: the columns of the statement with their arguments.
unfoldable pub insert_parts : Go → List Column → Record → Result Record
unfolding converted
insert_parts go [] r = ok []
insert_parts go (c ∷ cs) r =
    let rest = insert_parts go cs r in
    if not (is_some (lookup c.name r)) && c.nullable
    then rest
    else and_then
        (converted (convert_to_db_value go) c.name (value_or_nil (lookup c.name r)) c.type)
        λ v. and_then rest λ vs. ok ((c.name, v) ∷ vs)

abbrev pub insert_query : String → List String → String
insert_query table names = sprintf (
    "INSERT INTO "
    ∷ table
    ∷ " ("
    ∷ comma_joined names
    ∷ ") VALUES ("
    ∷ comma_joined (map (λ _. "?") names)
    ∷ ")"
    ∷ [])

abbrev pub insert_statement : Schema → Record → Result (String × List Value)
insert_statement schema [] = err (errorf "no columns to insert" [])
insert_statement schema (p ∷ ps) =
    ok (insert_query schema.table_name (map (λ q. q.0) (p ∷ ps)), map (λ q. q.1) (p ∷ ps))

abbrev pub update_value : Go → Option Column → String → Value → Result Value
update_value go none name value = ok value
update_value go (some column) name value = converted (convert_to_db_value go) name value column.type

-- The loop of `ToDBUpdate`.
unfoldable pub update_parts : Go → List Column → Record → Result Record
unfolding converted
update_parts go columns [] = ok []
update_parts go columns ((name, value) ∷ rest) =
    and_then (update_value go (find_column columns name) name value)
      λ v. and_then (update_parts go columns rest) λ vs. ok ((name, v) ∷ vs)

abbrev pub update_query : String → String → List String → String
update_query table primary_key names = sprintf (
    "UPDATE "
    ∷ table
    ∷ " SET "
    ∷ comma_joined (map (λ name. sprintf (name ∷ " = ?" ∷ [])) names)
    ∷ " WHERE "
    ∷ primary_key
    ∷ " = ?"
    ∷ [])

-- The type that the value of the primary key is converted by: that of its column, and that of the
-- first column if it has none.
abbrev pub key_type_of : Option Column → List Column → String
key_type_of (some column) columns = column.type
key_type_of none [] = ""
key_type_of none (c ∷ cs) = c.type

abbrev key_type : Schema → String
key_type schema = key_type_of (find_column schema.columns schema.primary_key) schema.columns

-- The loop of `FromDB`; a scan of a row yields as many values as there are columns.
unfoldable pub from_row : Go → List Column → List Value → Result Record
unfolding converted
from_row go (c ∷ cs) (v ∷ vs) =
    and_then (converted (convert_from_db_value go) c.name v c.type)
      λ w. and_then (from_row go cs vs) λ ws. ok ((c.name, w) ∷ ws)
from_row go _ _ = ok []

-- `Translator`, with the formatting of a key from the names of its table and the key's value.
pub record Translator : Type 0 where
  pub go : Go
  pub format_key : String → Value → String

-- `NewTranslator`: the format is "%s:%v".
unfoldable pub new_translator : Go → Translator
new_translator g = record {
  go = g;
  format_key = λ table key. sprintf (table ∷ ":" ∷ g.value_text key ∷ []);
}

module _ (t : Translator) where
  unfoldable pub stored_under : Option Value → Record → Schema → Result (String × Bytes)
  unfolding convert_entries
  stored_under none r schema =
      err (errorf "primary key '%s' not found in record" (schema.primary_key ∷ []))
  stored_under (some key) r schema =
      and_then (convert_entries (convert_to_db_value t.go) schema.columns r) λ stored.
        and_then
          (wrap "failed to marshal record to JSON" [] (t.go.marshal (object (fields_of stored))))
          λ bytes. ok (t.format_key schema.table_name key, bytes)

  -- `ToKV`
  unfoldable pub to_kv : Option Record → Schema → Result (String × Bytes)
  unfolding stored_under
  to_kv none schema = err (errorf "record cannot be nil" [])
  to_kv (some r) schema =
      and_then (wrap "validation failed" [] (validate_record t.go schema (some r)))
        λ _. stored_under (lookup schema.primary_key r) r schema

  -- `FromKV`; what the validator says of the record is ignored.
  unfoldable pub from_kv : String → Option Bytes → Schema → Result Record
  unfolding convert_entries
  from_kv key none schema = err (errorf "value cannot be nil" [])
  from_kv key (some bytes) schema =
      and_then (wrap "failed to unmarshal JSON" [] (t.go.unmarshal_map bytes))
        λ stored. convert_entries (convert_from_db_value t.go) schema.columns stored

  -- `ToDB`
  unfoldable pub to_db : Option Record → Schema → Result (String × List Value)
  unfolding insert_parts
  to_db none schema = err (errorf "record cannot be nil" [])
  to_db (some r) schema =
      and_then (wrap "validation failed" [] (validate_record t.go schema (some r)))
        λ _. and_then (insert_parts t.go schema.columns r) λ parts. insert_statement schema parts

  -- `ToDBUpdate` once the key and the values are accepted.
  unfoldable pub update_accepted : Value → Record → Schema → Result (String × List Value)
  unfolding update_parts
  update_accepted key r schema = and_then (update_parts t.go schema.columns r) λ parts.
      and_then
        (wrap "failed to convert primary key value" []
          (convert_to_db_value t.go key (key_type schema)))
        λ k. ok (
          update_query schema.table_name schema.primary_key (map (λ q. q.0) parts),
          map (λ q. q.1) parts ++ k ∷ [],
        )

  -- `ToDBUpdate`
  unfoldable pub to_db_update : Value → Option Record → Schema → Result (String × List Value)
  unfolding update_accepted
  to_db_update key none schema = err (errorf "updates cannot be empty" [])
  to_db_update key (some []) schema = err (errorf "updates cannot be empty" [])
  to_db_update key (some (e ∷ es)) schema =
      and_then (wrap "validation failed" [] (validate_partial_record t.go schema (some (e ∷ es))))
        λ _. and_then (wrap "invalid primary key" [] (validate_primary_key t.go schema key)) λ _.
          if is_some (lookup schema.primary_key (e ∷ es))
          then err (errorf "cannot update primary key '%s'" (schema.primary_key ∷ []))
          else update_accepted key (e ∷ es) schema

  -- `FromDB`
  unfoldable pub from_db : List Value → Schema → Result Record
  unfolding from_row
  from_db row schema =
      and_then (wrap "failed to scan row" [] (scan (length schema.columns) row))
        λ values. from_row t.go schema.columns values

  -- The translator as the tables use it.
  unfoldable pub translator_ops : SchemaTranslator
  unfolding to_kv from_kv to_db to_db_update from_db
  translator_ops = record {
    to_kv = to_kv;
    from_kv = λ key bytes. from_kv key (some bytes);
    to_db = to_db;
    to_db_update = to_db_update;
    from_db = from_db;
  }
