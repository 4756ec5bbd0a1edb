-- ===== src/Database.antt =====
-- internal/core/database.go, and the interface of the translator in internal/core/schema.go.
-- The database server is outside the repository: `D` is its state and `DbOps` its operations. A
-- query yields the rows that `Next` goes through, and what `Err` returns after them.
pub mod MySql
pub mod Discovery
pub mod Grouping
use shock_absorber.Prelude.{
  ℕ, String, List, [], Option, Error, Result, ok, err, errorf, Exec, length, num_eq, if◌then◌else◌,
}
use shock_absorber.Core.{Value, Record, Schema}
use shock_absorber.Store.{Bytes}

pub record RowSet : Type 0 where
  pub rows : List (List Value)
  pub error : Option Error

pub record DbOps (D : Type 0) : Type 0 where
  pub query : String → List Value → Exec D RowSet
  pub exec : String → List Value → Exec D ℕ

-- `rows.Scan` into `n` destinations: database/sql refuses another number of columns.
unfoldable pub scan : ℕ → List Value → Result (List Value)
scan n row =
    if num_eq (length row) n
    then ok row
    else err (errorf "sql: expected destination arguments in Scan" [])

-- core.SchemaTranslator, with `ToDBUpdate` of internal/schema/translator.go, to which
-- `writeToDatabase` goes through a type assertion.
pub record SchemaTranslator : Type 0 where
  pub to_kv : Option Record → Schema → Result (String × Bytes)
  pub from_kv : String → Bytes → Schema → Result Record
  pub to_db : Option Record → Schema → Result (String × List Value)
  pub to_db_update : Value → Option Record → Schema → Result (String × List Value)
  pub from_db : List Value → Schema → Result Record
