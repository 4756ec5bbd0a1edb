-- ===== src/Schema/Statements.antt =====
-- internal/schema/translator.go: the statements that `ToDB` and `ToDBUpdate` build.
use shock_absorber.Prelude.{
  ◌≡◌, ◌≢◌, ◌⊎◌, inl, inr, refl, ap, subst, ◌∙◌, sym, ◌==◌, String, not, ◌&&◌, false, List, [], ◌∷◌,
  ◌++◌, map, Option, none, some, is_some, lookup, Result, ok, done, wrap, if◌then◌else◌, arith,
  Bool-cases, Option-cases, Result-cases, and_then-eq_ok, wrap-eq_ok, ok_injective,
}
use shock_absorber.Core.{
  Value, nil, bool, integer, float32, float64, string, bytes, time, object, array, is_nil, Record,
  Column, Schema, find_column,
}
use shock_absorber.Schema.Conversions.{Go}
use shock_absorber.Schema.Mapper.{convert_to_db_value}
use shock_absorber.Schema.Validator.{
  validate_column_type, validate_value, validate_all, validate_record, validate_partial_record,
  validate_key, validate_primary_key, value_or_nil,
}
use shock_absorber.Schema.Translator.{
  converted, insert_parts, insert_query, insert_statement, update_value, update_parts, update_query,
  Translator, to_db, to_db_update, update_accepted, key_type_of,
}

-- The columns that a record gives a value to, or has to.
abbrev pub kept_columns : Record → List Column → List Column
kept_columns r [] = []
kept_columns r (c ∷ cs) =
    let rest = kept_columns r cs in
    if not (is_some (lookup c.name r)) && c.nullable then rest else c ∷ rest

-- What a column of a record is converted to.
abbrev pub column_value : Go → Record → Column → Result Value
column_value go r c = convert_to_db_value go (value_or_nil (lookup c.name r)) c.type

-- What an entry of an update is converted to: a column that the schema lacks takes any value.
abbrev pub found_value : Go → Option Column → Value → Result Value
found_value go none v = ok v
found_value go (some c) v = convert_to_db_value go v c.type

abbrev pub entry_value : Go → List Column → String × Value → Result Value
entry_value go columns e = found_value go (find_column columns e.0) e.1

is_nil-cases : (v : Value) → (v ≡ nil) ⊎ (is_nil v ≡ false)
is_nil-cases nil = inl refl
is_nil-cases (bool b) = inr refl
is_nil-cases (integer k z) = inr refl
is_nil-cases (float32 b) = inr refl
is_nil-cases (float64 b) = inr refl
is_nil-cases (string s) = inr refl
is_nil-cases (bytes b) = inr refl
is_nil-cases (time s n) = inr refl
is_nil-cases (object fs) = inr refl
is_nil-cases (array is) = inr refl

module _ (go : Go) where
  -- The code converts nothing that is nil, which the mapper leaves as it is.
  convert_to_db_value-nil : (type : String) → convert_to_db_value go nil type ≡ ok nil
  unfolding convert_to_db_value
  convert_to_db_value-nil type = refl

  converted-eq_ok :
      (name : String) (v w : Value) (type : String)
      → converted (convert_to_db_value go) name v type ≡ ok w
      → convert_to_db_value go v type ≡ ok w
  unfolding converted
  converted-eq_ok name v w type h = elim (is_nil-cases v) [
    | inl e ↦ ground (arith, convert_to_db_value-nil type)
    | inr e ↦ ground arith
  ]

  validate_value-converted :
      (c : Column) (name : String) (v : Value)
      → validate_value go c name v ≡ done
      → (w : Value) × (converted (convert_to_db_value go) name v c.type ≡ ok w)
  unfolding validate_value validate_column_type converted
  validate_value-converted c name v h = elim (is_nil-cases v) [
    | inl e ↦ (nil, ground arith)
    | inr e ↦ elim (Result-cases (convert_to_db_value go v c.type)) [
      | inl (w, f) ↦ (w, ground arith)
      | inr (x, f) ↦ absurd (ground arith)
    ]
  ]

  validate_all-split :
      (c : Column) (cs : List Column) (r : Record)
      → validate_all go (c ∷ cs) r ≡ done
      → (validate_value go c c.name (value_or_nil (lookup c.name r)) ≡ done)
        × (validate_all go cs r ≡ done)
  unfolding validate_all
  validate_all-split c cs r h =
      elim (Result-cases (validate_value go c c.name (value_or_nil (lookup c.name r)))) [
        | inl (_, e) ↦ ground arith
        | inr (x, e) ↦ absurd (ground arith)
      ]

  -- A record that passed the tests on its columns has a value for each column of the statement.
  insert_parts-valid :
      (cs : List Column) (r : Record)
      → validate_all go cs r ≡ done
      → (parts : Record) × (insert_parts go cs r ≡ ok parts)
        × (map (λ p. p.0) parts ≡ map (λ c. c.name) (kept_columns r cs))
        × (map (column_value go r) (kept_columns r cs) ≡ map (λ p. ok p.1) parts)
  unfolding insert_parts
  insert_parts-valid [] r h = ([], refl, refl, refl)
  insert_parts-valid (c ∷ cs) r h =
      let (valid, valid') = validate_all-split c cs r h in
      let (parts, e, names, values) = insert_parts-valid cs r valid' in
      let v = value_or_nil (lookup c.name r) in
      let (w, f) = validate_value-converted c c.name v valid in
      elim (Bool-cases (not (is_some (lookup c.name r)) && c.nullable)) [
        | inl skipped ↦ (parts, rw (skipped, e) refl, rw skipped names, rw skipped values)
        | inr kept ↦ (
          (c.name, w) ∷ parts,
          rw (kept, f, e) refl,
          rw (kept, names) refl,
          rw (kept, values, converted-eq_ok c.name v w c.type f) refl,
        )
      ]

  validate_record-columns :
      (schema : Schema) (r : Record)
      → validate_record go schema (some r) ≡ done
      → validate_all go schema.columns r ≡ done
  unfolding validate_record
  validate_record-columns schema r h =
      elim (Bool-cases
        (not (schema.primary_key == "") && not (is_some (lookup schema.primary_key r)))) [
          | inl missing ↦ absurd (ground arith)
          | inr present ↦ ground arith
        ]

insert_statement-named :
    (schema : Schema) (parts : Record) (kept : List Column)
    → map (λ p. p.0) parts ≡ map (λ c. c.name) kept
    → kept ≢ []
    → insert_statement schema parts
      ≡ ok (insert_query schema.table_name (map (λ c. c.name) kept), map (λ p. p.1) parts)
insert_statement-named schema [] [] e some_column = absurd (some_column refl)
insert_statement-named schema [] (c ∷ cs) e some_column = cc
insert_statement-named schema (p ∷ ps) kept e some_column =
    ap (λ names. ok (insert_query schema.table_name names, map (λ q. q.1) (p ∷ ps))) e

map_ok : (parts : Record) → map (λ p. ok p.1) parts ≡ map ok (map (λ p. p.1) parts)
map_ok [] = refl
map_ok (p ∷ ps) = ap (◌∷◌ (ok p.1)) (map_ok ps)

module _ (t : Translator) where
  -- A record that passes the tests and has a column to store becomes one INSERT statement: it
  -- names the columns that the record has or that are not nullable, in the schema's order, has a
  -- placeholder for each, and its arguments are what the mapper makes of the record's values for
  -- these columns. No conversion fails after the tests.
  pub valid_record_inserts :
      (schema : Schema) (r : Record)
      → validate_record t.go schema (some r) ≡ done
      → kept_columns r schema.columns ≢ []
      → (args : List Value) × (to_db t (some r) schema
          ≡ ok (
            insert_query schema.table_name (map (λ c. c.name) (kept_columns r schema.columns)),
            args,
          ))
        × (map (column_value t.go r) (kept_columns r schema.columns) ≡ map ok args)
  unfolding to_db
  valid_record_inserts schema r h some_column =
      let (parts, e, names, values) =
        insert_parts-valid t.go schema.columns r (validate_record-columns t.go schema r h) in
      (
        map (λ p. p.1) parts,
        rw (h, e)
            (insert_statement-named schema parts (kept_columns r schema.columns) names some_column),
        values ∙ map_ok parts,
      )

  update_value-eq_ok :
      (found : Option Column) (name : String) (v w : Value)
      → update_value t.go found name v ≡ ok w
      → found_value t.go found v ≡ ok w
  update_value-eq_ok none name v w h = h
  update_value-eq_ok (some c) name v w h = converted-eq_ok t.go name v w c.type h

  update_parts-converted :
      (columns : List Column) (r parts : Record)
      → update_parts t.go columns r ≡ ok parts
      → (map (λ p. p.0) parts ≡ map (λ p. p.0) r)
        × (map (entry_value t.go columns) r ≡ map ok (map (λ p. p.1) parts))
  unfolding update_parts
  update_parts-converted columns [] parts h = ground arith
  update_parts-converted columns ((name, v) ∷ rest) parts h =
      let (w, e, h') = and_then-eq_ok _ _ parts h in
      let (ws, f, g) = and_then-eq_ok _ _ parts h' in
      let (names, values) = update_parts-converted columns rest ws f in
      let same = ok_injective ((name, w) ∷ ws) parts g in
      let first = update_value-eq_ok (find_column columns name) name v w e in
      (rw (sym same, names) refl, rw (sym same, first, values) refl)

  validate_primary_key-column :
      (schema : Schema) (key : Value)
      → validate_primary_key t.go schema key ≡ done
      → (column : Column) × (find_column schema.columns schema.primary_key ≡ some column)
  unfolding validate_primary_key validate_key
  validate_primary_key-column schema key h =
      elim (Option-cases (find_column schema.columns schema.primary_key)) [
        | inl e ↦ absurd (ground arith)
        | inr found ↦ found
      ]

  update_accepted-statement :
      (key : Value) (schema : Schema) (r : Record) (query : String) (args : List Value)
      (column : Column)
      → find_column schema.columns schema.primary_key ≡ some column
      → update_accepted t key r schema ≡ ok (query, args)
      → (query ≡ update_query schema.table_name schema.primary_key (map (λ e. e.0) r))
        × (k : Value) × (values : List Value) × (convert_to_db_value t.go key column.type ≡ ok k)
        × (args ≡ values ++ k ∷ [])
        × (map (entry_value t.go schema.columns) r ≡ map ok values)
  unfolding update_accepted
  update_accepted-statement key schema r query args column found h =
      let (parts, e, h') = and_then-eq_ok _ _ (query, args) h in
      let (k, f, g) = and_then-eq_ok _ _ (query, args) h' in
      let same = ok_injective _ (query, args) g in
      let (names, values) = update_parts-converted schema.columns r parts e in
      let converted_key = wrap-eq_ok "failed to convert primary key value" [] _ k f in
      (
        ap (λ s. s.0) (sym same) ∙ ap (update_query schema.table_name schema.primary_key) names,
        k,
        map (λ p. p.1) parts,
        subst (λ found. convert_to_db_value t.go key (key_type_of found schema.columns) ≡ ok k)
            found converted_key,
        ap (λ s. s.1) (sym same),
        values,
      )

  -- An UPDATE statement that `ToDBUpdate` returns never sets the primary key: it sets exactly the
  -- columns of the updates, each to what the mapper makes of its value (a column that the schema
  -- lacks takes the value as it is), and its last argument is the key converted by the type of the
  -- primary key's column, which the schema has.
  pub update_statement :
      (key : Value) (schema : Schema) (updates : Record) (query : String) (args : List Value)
      → to_db_update t key (some updates) schema ≡ ok (query, args)
      → (lookup schema.primary_key updates ≡ none)
        × (column : Column) × (find_column schema.columns schema.primary_key ≡ some column)
        × (query ≡ update_query schema.table_name schema.primary_key (map (λ e. e.0) updates))
        × (k : Value) × (values : List Value) × (convert_to_db_value t.go key column.type ≡ ok k)
        × (args ≡ values ++ k ∷ [])
        × (map (entry_value t.go schema.columns) updates ≡ map ok values)
  unfolding to_db_update
  update_statement key schema [] query args h = cc
  update_statement key schema (e ∷ es) query args h =
      let (_, _, h1) =
        and_then-eq_ok
          (wrap "validation failed" [] (validate_partial_record t.go schema (some (e ∷ es)))) _
          (query, args) h in
      let (_, valid, h2) = and_then-eq_ok _ _ (query, args) h1 in
      let (column, found) =
        validate_primary_key-column schema key (wrap-eq_ok "invalid primary key" [] _ tt valid) in
      elim (Option-cases (lookup schema.primary_key (e ∷ es))) [
        | inr (v, there) ↦ absurd (ground arith)
        | inl absent ↦
            let (query_is, k, values, key_is, args_are, values_are) =
              update_accepted-statement key schema (e ∷ es) query args column found
                (ground arith) in
            (absent, column, found, query_is, k, values, key_is, args_are, values_are)
      ]
