-- ===== src/Tests/Discoveries.antt =====
-- A database with one table, and the theorems on `GetSchema` at it.
use shock_absorber.Prelude.{
  ℕ, suc, String, ◌≡◌, refl, true, false, List, [], ◌∷◌, none, map, Map, errorf, ok, err, done, pos,
  num_eq, if◌then◌else◌, lookup, insert,
}
use shock_absorber.Core.{Value, nil, integer, int64, string, Index, Schema}
use shock_absorber.Database.{RowSet}
use shock_absorber.Database.MySql.{
  SqlDb, Scanner, MySqlDatabase, ColumnRow, IndexRow, columns_query, get_schema, read_indexes,
  scan_index,
}
use shock_absorber.Database.Discovery.{IsDiscovered, get_schema_discovers}
use shock_absorber.Database.Grouping.{columns_named, extended, columns_at, read_indexes_groups}

abbrev scanner : Scanner
scanner = record {
  to_text = λ v. elim v [
    | string s ↦ ok s
    | _ ↦ err (errorf "converting NULL to string is unsupported" [])
  ];
  to_number =
      λ v. elim v [ integer k z ↦ ok z | _ ↦ err (errorf "converting driver.Value type" []) ];
}

abbrev column_rows : List (List Value)
column_rows =
    (string "id" ∷ string "bigint" ∷ string "NO" ∷ nil ∷ string "PRI" ∷ [])
    ∷ (string "name" ∷ string "varchar" ∷ string "YES" ∷ string "x" ∷ string "" ∷ [])
    ∷ []

abbrev index_rows : List (List Value)
index_rows =
    (string "PRIMARY" ∷ string "id" ∷ integer int64 (pos 0) ∷ [])
    ∷ (string "both" ∷ string "id" ∷ integer int64 (pos 1) ∷ [])
    ∷ (string "both" ∷ string "name" ∷ integer int64 (pos 1) ∷ [])
    ∷ []

-- The first query is on the columns, the second on the indexes.
abbrev sql : SqlDb ℕ
sql = record {
  query_context = λ q args n.
      (ok (record { rows = if num_eq n 0 then column_rows else index_rows; error = none }), suc n);
  exec_context = λ q args n. (ok 0, n);
  ping_context = λ t n. (done, n);
  shut = λ n. (done, n);
  set_pool = λ a b c d n. n;
}

abbrev database : MySqlDatabase ℕ
database = record { db = 0; closed = false }

abbrev both : Map Index
both =
    ("PRIMARY", record { name = "PRIMARY"; columns = "id" ∷ []; unique = true; primary = true })
    ∷ (
      "both",
      record { name = "both"; columns = "id" ∷ "name" ∷ []; unique = false; primary = false },
    )
    ∷ []

abbrev people : Schema
people = record {
  table_name = "people";
  primary_key = "id";
  columns =
      record { name = "id"; type = "bigint"; nullable = false; default = nil }
      ∷ record { name = "name"; type = "varchar"; nullable = true; default = string "x" }
      ∷ [];
  indexes = map (λ e. e.1) both;
}

found : (get_schema sql scanner (λ m. m) "people" database).0 ≡ ok people
unfolding get_schema lookup insert
found = refl

get_schema_discovers_example :
    (database.closed ≡ false)
    × (rs : RowSet) × ((sql.query_context columns_query (string "people" ∷ []) 0).0 ≡ ok rs)
    × (cs : List ColumnRow) × IsDiscovered scanner "people" rs cs people
get_schema_discovers_example =
    get_schema_discovers sql scanner (λ m. m) "people" database people found

grouped : read_indexes scanner index_rows [] ≡ ok both
unfolding read_indexes lookup insert
grouped = refl

read_indexes_groups_example :
    (rs : List IndexRow) × (map (scan_index scanner) index_rows ≡ map ok rs)
    × ((name : String) → columns_at name both ≡ extended none (columns_named name rs))
read_indexes_groups_example = read_indexes_groups scanner index_rows both grouped
