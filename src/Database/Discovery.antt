-- ===== src/Database/Discovery.antt =====
-- `GetSchema` of internal/database/mysql.go against the rows of the information schema.
use shock_absorber.Prelude.{
  String, ◌≡◌, ◌≢◌, refl, ap, sym, subst, ◌∙◌, true, false, List, [], ◌∷◌, ◌++◌, Option, some, none,
  Map, map, is_some, continue-eq_ok, ok, err, wrap, wrap-eq_ok, and_then-eq_ok, ok_injective, Error,
  Exec, ◌>>=◌, lift, ◌⊎◌, inl, inr, if◌then◌else◌, ◌==◌, arith, eq_iff, append_assoc, append-nil,
  Bool-cases, errorf, wrapped,
}
use shock_absorber.Core.{Value, string, find_column, Index, Schema}
use shock_absorber.Database.{RowSet}
use shock_absorber.Database.MySql.{
  SqlDb, Scanner, MySqlDatabase, ColumnRow, column_of, add_column, scan_column, read_columns,
  read_indexes, schema_of, with_indexes, get_schema, unless_closed, on_db, or_error, new_schema,
  columns_query, index_query,
}

-- The last column that is marked as a part of the primary key.
abbrev pub last_key : String → List ColumnRow → String
last_key d [] = d
last_key d (r ∷ rs) = last_key (if r.column_key == "PRI" then r.name else d) rs

add_columns : Schema → List ColumnRow → Schema
add_columns s [] = s
add_columns s (r ∷ rs) = add_columns (add_column s r) rs

read_columns-ok :
    (scanner : Scanner) (rows : List (List Value)) (s t : Schema)
    → read_columns scanner rows s ≡ ok t
    → (cs : List ColumnRow) × (map (scan_column scanner) rows ≡ map ok cs) × (t ≡ add_columns s cs)
unfolding read_columns add_columns
read_columns-ok scanner [] s t h = ([], refl, sym (ok_injective s t h))
read_columns-ok scanner (row ∷ rows) s t h =
    let (r, e, rest) =
      and_then-eq_ok (wrap "failed to scan column" [] (scan_column scanner row)) _ t h in
    let (cs, es, same) = read_columns-ok scanner rows (add_column s r) t rest in
    (
      r ∷ cs,
      ap (λ x. x ∷ map (scan_column scanner) rows)
            (wrap-eq_ok "failed to scan column" [] (scan_column scanner row) r e)
          ∙ ap (λ xs. ok r ∷ xs) es,
      same,
    )

add_columns-fields :
    (s : Schema) (cs : List ColumnRow)
    → let t = add_columns s cs in
      (t.table_name ≡ s.table_name)
      × (t.columns ≡ s.columns ++ map column_of cs)
      × (t.primary_key ≡ last_key s.primary_key cs)
unfolding add_columns add_column
add_columns-fields s [] = (refl, sym (append-nil s.columns), refl)
add_columns-fields s (r ∷ cs) =
    let (name, columns, key) = add_columns-fields (add_column s r) cs in
    (name, columns ∙ append_assoc s.columns (column_of r ∷ []) (map column_of cs), key)

-- A key that is not the one at the start is the name of a column.
last_key-column :
    (d : String) (cs : List ColumnRow)
    → (last_key d cs ≡ d) ⊎ (is_some (find_column (map column_of cs) (last_key d cs)) ≡ true)
last_key-column d [] = inl refl
last_key-column d (r ∷ cs) =
    let d' = if r.column_key == "PRI" then r.name else d in
    elim (last_key-column d' cs) [
      | inl same ↦ elim (Bool-cases (r.column_key == "PRI")) [
        | inl key ↦ inr (ground (arith, same, eq_iff r.name (last_key d' cs)))
        | inr other ↦ inl (ground (arith, same))
      ]
      | inr found ↦ inr (ground (arith, found))
    ]

-- What a schema says of the rows that its columns come from.
pub record IsDiscovered (scanner : Scanner) (name : String) (rs : RowSet) (cs : List ColumnRow)
    (s : Schema) : Type 0 where
  pub scanned : map (scan_column scanner) rs.rows ≡ map ok cs
  pub named : s.table_name ≡ name
  pub all_columns : s.columns ≡ map column_of cs
  pub key_is_last : s.primary_key ≡ last_key "" cs
  pub key_is_column : is_some (find_column s.columns s.primary_key) ≡ true
  pub all_read : rs.error ≡ none

or_error-ok :
    {A : Type 0} (c : String) (e : Option Error) (a b : A)
    → or_error c e a ≡ ok b
    → (e ≡ none) × (a ≡ b)
or_error-ok c none a b h = (refl, ok_injective a b h)
or_error-ok c (some e) a b h = cc

keyed-ok :
    (name : String) (s t : Schema)
    → (if s.primary_key == ""
        then err (errorf "table %s does not have a primary key" (name ∷ []))
        else ok s)
      ≡ ok t
    → (s ≡ t) × (s.primary_key ≢ "")
keyed-ok name s t h = elim (Bool-cases (s.primary_key == "")) [
  | inl e ↦ absurd (ground (arith, e))
  | inr e ↦ (
    ok_injective s t (
        sym (
          ap
            (λ b.
              if b then err (errorf "table %s does not have a primary key" (name ∷ [])) else ok s)
            e)
        ∙ h),
    ground (arith, e, eq_iff s.primary_key ""),
  )
]

add_columns-IsDiscovered :
    (scanner : Scanner) (name : String) (rs : RowSet) (cs : List ColumnRow)
    → map (scan_column scanner) rs.rows ≡ map ok cs
    → rs.error ≡ none
    → (add_columns (new_schema name) cs).primary_key ≢ ""
    → IsDiscovered scanner name rs cs (add_columns (new_schema name) cs)
add_columns-IsDiscovered scanner name rs cs scanned no_error key =
    let t = add_columns (new_schema name) cs in
    let (named, columns, last) = add_columns-fields (new_schema name) cs in
    record {
      scanned = scanned;
      named = named;
      all_columns = columns;
      key_is_last = last;
      key_is_column = elim (last_key-column "" cs) [
        | inl same ↦ absurd (key (last ∙ same))
        | inr found ↦
            ap (λ l. is_some (find_column l t.primary_key)) columns
            ∙ ap (λ k. is_some (find_column (map column_of cs) k)) last
            ∙ found
      ];
      all_read = no_error;
    }

schema_of-IsDiscovered :
    (scanner : Scanner) (name : String) (rs : RowSet) (t : Schema)
    → schema_of scanner name rs ≡ ok t
    → (cs : List ColumnRow) × IsDiscovered scanner name rs cs t
unfolding schema_of
schema_of-IsDiscovered scanner name rs t h =
    let (s, read, rest) = and_then-eq_ok (read_columns scanner rs.rows (new_schema name)) _ t h in
    let (s', complete, keyed) =
      and_then-eq_ok (or_error "error iterating columns" rs.error s) _ t rest in
    let (no_error, same) = or_error-ok "error iterating columns" rs.error s s' complete in
    let (same', key) = keyed-ok name s' t keyed in
    let (cs, scanned, made) = read_columns-ok scanner rs.rows (new_schema name) s read in
    let made' : add_columns (new_schema name) cs ≡ s' = sym made ∙ same in
    (
      cs,
      subst (IsDiscovered scanner name rs cs) (made' ∙ same') (
          add_columns-IsDiscovered scanner name rs cs scanned no_error
            (subst (λ x. x.primary_key ≢ "") (sym made') key)),
    )

with_indexes-keeps :
    (scanner : Scanner) (order : Map Index → Map Index) (s t : Schema) (rs : RowSet)
    → with_indexes scanner order s rs ≡ ok t
    → (indexes : List Index) × (t ≡ record s { indexes = indexes })
unfolding with_indexes
with_indexes-keeps scanner order s t rs h =
    let (m, _, same) = and_then-eq_ok (read_indexes scanner rs.rows []) _ t h in
    (map (λ e. e.1) (order m), sym (ok_injective _ t same))

IsDiscovered-indexes :
    (scanner : Scanner) (name : String) (rs : RowSet) (cs : List ColumnRow) (s : Schema)
    (indexes : List Index)
    → IsDiscovered scanner name rs cs s
    → IsDiscovered scanner name rs cs (record s { indexes = indexes })
IsDiscovered-indexes scanner name rs cs s indexes h = record {
  scanned = h.scanned;
  named = h.named;
  all_columns = h.all_columns;
  key_is_last = h.key_is_last;
  key_is_column = h.key_is_column;
  all_read = h.all_read;
}

unless_closed-ok :
    {C A : Type 0} (sql : SqlDb C) (m : Exec (MySqlDatabase C) A) (d : MySqlDatabase C) (a : A)
    → (unless_closed sql m d).0 ≡ ok a
    → (d.closed ≡ false) × ((m d).0 ≡ ok a)
unfolding unless_closed
unless_closed-ok sql m d a h = elim (Bool-cases d.closed) [
  | inl e ↦ absurd (ground (arith, e))
  | inr e ↦
      (e, sym (ap (λ b. (if b then (err (errorf "database is closed" []), d) else m d).0) e) ∙ h)
]

module _ {C : Type 0} (sql : SqlDb C) where
  -- What a run of `GetSchema` that succeeds has found: the database was open, the query on the columns
  -- answered, and the schema has the name of the table, a column for each row of the answer, in
  -- order, and as primary key the last column that is marked as a part of it, which is one of them.
  pub get_schema_discovers :
      (scanner : Scanner) (order : Map Index → Map Index) (name : String) (d : MySqlDatabase C)
      (t : Schema)
      → (get_schema sql scanner order name d).0 ≡ ok t
      → (d.closed ≡ false)
        × (rs : RowSet) × ((sql.query_context columns_query (string name ∷ []) d.db).0 ≡ ok rs)
        × (cs : List ColumnRow) × IsDiscovered scanner name rs cs t
  unfolding get_schema unless_closed on_db
  get_schema_discovers scanner order name d t h =
      let ask : String → String → Exec (MySqlDatabase C) RowSet =
        λ c q. wrapped c [] (on_db sql (sql.query_context q (string name ∷ []))) in
      let ask_indexes : Schema → Exec (MySqlDatabase C) Schema = λ s.
        ask "failed to query indexes" index_query >>= λ is.
        lift (with_indexes scanner order s is) in
      let use_columns : RowSet → Exec (MySqlDatabase C) Schema =
        λ rs. lift (schema_of scanner name rs) >>= ask_indexes in
      let (is_open, run) =
        unless_closed-ok sql (ask "failed to query columns" columns_query >>= use_columns) d t h in
      let m = ask "failed to query columns" columns_query d in
      let (rs, e, run₁) = continue-eq_ok m use_columns t run in
      let (s, found, run₂) = continue-eq_ok (schema_of scanner name rs, m.1) ask_indexes t run₁ in
      let n = ask "failed to query indexes" index_query m.1 in
      let (is, _, run₃) = continue-eq_ok n (λ is. lift (with_indexes scanner order s is)) t run₂ in
      let (indexes, same) = with_indexes-keeps scanner order s t is run₃ in
      let (cs, discovered) = schema_of-IsDiscovered scanner name rs s found in
      (
        is_open,
        rs,
        wrap-eq_ok "failed to query columns" []
            (sql.query_context columns_query (string name ∷ []) d.db).0 rs e,
        cs,
        subst (IsDiscovered scanner name rs cs) (sym same)
            (IsDiscovered-indexes scanner name rs cs s indexes discovered),
      )
