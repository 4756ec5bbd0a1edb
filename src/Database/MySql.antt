-- ===== src/Database/MySql.antt =====
-- internal/database/mysql.go: `MySQLDatabase`. database/sql and the driver are outside the
-- repository: `C` is the state behind a `sql.DB`, `SqlDb` its calls, `Scanner` the conversions of
-- `Rows.Scan`. The answers of a query come as a whole; what `Err` returns after them is with them.
-- White space in the queries is one space.
use shock_absorber.Prelude.{
  ℕ, String, ℤ, Bool, true, false, List, [], ◌∷◌, ◌++◌, Option, some, none, Map, lookup, insert,
  map, is_zero, Error, errorf, wrapf, wrap, wrapped, and_then, Result, ok, err, done, Exec, ◌>>=◌,
  lift, if◌then◌else◌, ◌==◌, sprintf,
}
use shock_absorber.Core.{Value, nil, string, Column, Index, Schema}
use shock_absorber.Database.{RowSet, DbOps}
use shock_absorber.Registry.Config.{InternalDatabaseConfig}

-- `QueryContext`, `ExecContext` with `RowsAffected`, `PingContext`, `Close`, and the setters of the
-- pool, which answer nothing.
pub record SqlDb (C : Type 0) : Type 0 where
  pub query_context : String → List Value → Exec C RowSet
  pub exec_context : String → List Value → Exec C ℕ
  pub ping_context : ℤ → Exec C (Unit {0})
  pub shut : Exec C (Unit {0})
  pub set_pool : ℤ → ℤ → ℤ → ℤ → C → C

-- What `Scan` stores into a string, an int, and a sql.NullString.
pub record Scanner : Type 0 where
  pub to_text : Value → Result String
  pub to_number : Value → Result ℤ

pub record MySqlDatabase (C : Type 0) : Type 0 where
  pub db : C
  pub closed : Bool

abbrev pub columns_query : String
columns_query =
    "SELECT COLUMN_NAME, DATA_TYPE, IS_NULLABLE, COLUMN_DEFAULT, COLUMN_KEY FROM INFORMATION_SCHEMA.COLUMNS WHERE TABLE_SCHEMA = DATABASE() AND TABLE_NAME = ? ORDER BY ORDINAL_POSITION"

abbrev pub index_query : String
index_query =
    "SELECT INDEX_NAME, COLUMN_NAME, NON_UNIQUE FROM INFORMATION_SCHEMA.STATISTICS WHERE TABLE_SCHEMA = DATABASE() AND TABLE_NAME = ? ORDER BY INDEX_NAME, SEQ_IN_INDEX"

abbrev tables_query : String
tables_query =
    "SELECT TABLE_NAME FROM INFORMATION_SCHEMA.TABLES WHERE TABLE_SCHEMA = DATABASE() AND TABLE_TYPE = 'BASE TABLE'"

-- A row of INFORMATION_SCHEMA.COLUMNS and one of INFORMATION_SCHEMA.STATISTICS, when scanned.
pub record ColumnRow : Type 0 where
  pub name : String
  pub data_type : String
  pub is_nullable : String
  pub default : Option String
  pub column_key : String

pub record IndexRow : Type 0 where
  pub index_name : String
  pub column_name : String
  pub non_unique : ℤ

abbrev default_value : Option String → Value
default_value none = nil
default_value (some s) = string s

abbrev pub column_of : ColumnRow → Column
column_of r = record {
  name = r.name;
  type = r.data_type;
  nullable = r.is_nullable == "YES";
  default = default_value r.default;
}

-- What the loop does with a column.
unfoldable pub add_column : Schema → ColumnRow → Schema
add_column s r = record s {
  primary_key = if r.column_key == "PRI" then r.name else s.primary_key;
  columns = s.columns ++ column_of r ∷ [];
}

-- What the loop does with a column of an index.
unfoldable pub add_index : Map Index → IndexRow → Map Index
add_index m r = elim (lookup r.index_name m) [
  | some i ↦ insert r.index_name (record i { columns = i.columns ++ r.column_name ∷ [] }) m
  | none ↦
      insert r.index_name
        (record {
          name = r.index_name;
          columns = r.column_name ∷ [];
          unique = is_zero r.non_unique;
          primary = r.index_name == "PRIMARY";
        })
        m
]

module _ (scanner : Scanner) where
  scan_null : Value → Result (Option String)
  scan_null nil = ok none
  scan_null v = and_then (scanner.to_text v) λ s. ok (some s)

  unfoldable pub scan_column : List Value → Result ColumnRow
  unfolding scan_null
  scan_column (n ∷ t ∷ y ∷ d ∷ k ∷ []) = and_then (scanner.to_text n) λ name.
      and_then (scanner.to_text t) λ data_type. and_then (scanner.to_text y) λ is_nullable.
        and_then (scan_null d) λ default. and_then (scanner.to_text k) λ column_key. ok (record {
          name = name;
          data_type = data_type;
          is_nullable = is_nullable;
          default = default;
          column_key = column_key;
        })
  scan_column _ = err (errorf "sql: expected destination arguments in Scan" [])

  unfoldable pub scan_index : List Value → Result IndexRow
  scan_index (i ∷ c ∷ u ∷ []) = and_then (scanner.to_text i) λ index_name.
      and_then (scanner.to_text c) λ column_name. and_then (scanner.to_number u) λ non_unique.
        ok (record { index_name = index_name; column_name = column_name; non_unique = non_unique })
  scan_index _ = err (errorf "sql: expected destination arguments in Scan" [])

  -- The two loops over `rows.Next()`.
  unfoldable pub read_columns : List (List Value) → Schema → Result Schema
  unfolding scan_column add_column
  read_columns [] s = ok s
  read_columns (row ∷ rows) s =
      and_then (wrap "failed to scan column" [] (scan_column row))
        λ r. read_columns rows (add_column s r)

  unfoldable pub read_indexes : List (List Value) → Map Index → Result (Map Index)
  unfolding scan_index add_index
  read_indexes [] m = ok m
  read_indexes (row ∷ rows) m =
      and_then (wrap "failed to scan index" [] (scan_index row))
        λ r. read_indexes rows (add_index m r)

  -- The loop of `GetTables`.
  scan_tables : List (List Value) → Result (List String)
  scan_tables [] = ok []
  scan_tables ((v ∷ []) ∷ rows) =
      and_then (wrap "failed to scan table name" [] (scanner.to_text v))
        λ name. and_then (scan_tables rows) λ names. ok (name ∷ names)
  scan_tables (row ∷ rows) = err (errorf "sql: expected destination arguments in Scan" [])

abbrev pub or_error : {A : Type 0} → String → Option Error → A → Result A
or_error c none a = ok a
or_error c (some e) a = err (wrapf c [] e)

abbrev pub new_schema : String → Schema
new_schema name = record { table_name = name; primary_key = ""; columns = []; indexes = [] }

-- The columns of a table and its primary key, from the rows that describe them.
unfoldable pub schema_of : Scanner → String → RowSet → Result Schema
unfolding read_columns
schema_of scanner name rs = and_then (read_columns scanner rs.rows (new_schema name)) λ s.
    and_then (or_error "error iterating columns" rs.error s) λ s.
      if s.primary_key == ""
      then err (errorf "table %s does not have a primary key" (name ∷ []))
      else ok s

-- The indexes, in the order in which Go goes through the map; `Err` of these rows is not asked.
unfoldable pub with_indexes : Scanner → (Map Index → Map Index) → Schema → RowSet → Result Schema
unfolding read_indexes
with_indexes scanner order s rs =
    and_then (read_indexes scanner rs.rows [])
      λ m. ok (record s { indexes = map (λ e. e.1) (order m) })

-- The data source name of `NewMySQLDatabase`; `duration_text` is the `%s` of a duration, `decimal` the `%d` of an int.
dsn : (ℤ → String) → (ℤ → String) → InternalDatabaseConfig → String
dsn decimal duration_text c = sprintf (
    c.username
    ∷ ":"
    ∷ c.password
    ∷ "@tcp("
    ∷ c.host
    ∷ ":"
    ∷ decimal c.port
    ∷ ")/"
    ∷ c.database
    ∷ "?parseTime=true&timeout="
    ∷ duration_text c.connection_timeout
    ∷ [])

module _ {C : Type 0} (sql : SqlDb C) where
  -- `NewMySQLDatabase`
  new_my_sql_database :
      (ℤ → String)
      → (ℤ → String)
      → (String → Result C)
      → InternalDatabaseConfig
      → Result (MySqlDatabase C)
  unfolding dsn
  new_my_sql_database decimal duration_text connect c =
      and_then (wrap "failed to open database" [] (connect (dsn decimal duration_text c))) λ db.
        let pooled =
          sql.set_pool c.max_open_conns c.max_idle_conns c.conn_max_lifetime c.conn_max_idle_time
            db in
        let (r, db') = sql.ping_context c.connection_timeout pooled in
        and_then (wrap "failed to ping database" [] r) λ _. ok (record { db = db'; closed = false })

  unfoldable pub on_db : {A : Type 0} → Exec C A → Exec (MySqlDatabase C) A
  on_db m d = let (r, db) = m d.db in (r, record d { db = db })

  unfoldable pub unless_closed : {A : Type 0} → Exec (MySqlDatabase C) A → Exec (MySqlDatabase C) A
  unless_closed m d = if d.closed then (err (errorf "database is closed" []), d) else m d

  unfoldable pub query : String → List Value → Exec (MySqlDatabase C) RowSet
  unfolding on_db unless_closed
  query q args =
      unless_closed (wrapped "failed to execute query" [] (on_db (sql.query_context q args)))

  unfoldable pub exec : String → List Value → Exec (MySqlDatabase C) ℕ
  unfolding on_db unless_closed
  exec q args =
      unless_closed (wrapped "failed to execute statement" [] (on_db (sql.exec_context q args)))

  unfoldable pub get_schema :
      Scanner → (Map Index → Map Index) → String → Exec (MySqlDatabase C) Schema
  unfolding on_db unless_closed schema_of with_indexes
  get_schema scanner order name = unless_closed (do
    rs ←
        wrapped "failed to query columns" []
          (on_db (sql.query_context columns_query (string name ∷ [])))
    s ← lift (schema_of scanner name rs)
    is ←
        wrapped "failed to query indexes" []
          (on_db (sql.query_context index_query (string name ∷ [])))
    lift (with_indexes scanner order s is))

  get_tables : Scanner → Exec (MySqlDatabase C) (List String)
  unfolding on_db unless_closed scan_tables
  get_tables scanner = unless_closed (do
    rs ← wrapped "failed to query tables" [] (on_db (sql.query_context tables_query []))
    names ← lift (scan_tables scanner rs.rows)
    lift (elim rs.error [ none ↦ ok names | some e ↦ err e ]))

  close : Exec (MySqlDatabase C) (Unit {0})
  close d =
      let (r, db) = sql.shut d.db in
      if d.closed then (done, d) else (r, record { db = db; closed = true })

  -- What the tables use.
  unfoldable pub my_sql_ops : DbOps (MySqlDatabase C)
  unfolding query exec
  my_sql_ops = record { query = query; exec = exec }
