-- ===== src/Client/Discovered.antt =====
-- `GetSchema` of internal/database/mysql.go under `EnableKV` of internal/client/client.go.
use shock_absorber.Prelude.{ℕ, String, ◌≡◌, ◌≢◌, done, ok, some, Map, arith, eq_iff}
use shock_absorber.Core.{Index, Schema}
use shock_absorber.Database.MySql.{SqlDb, Scanner, MySqlDatabase, get_schema}
use shock_absorber.Database.Discovery.{get_schema_discovers}
use shock_absorber.Registry.Tables.{
  TableRegistry, register, register_given, register_checked, fresh_metadata,
}

-- The registry takes a schema that `GetSchema` returned for the table, whatever it holds already.
discovered_registers :
    {C E : Type 0} (sql : SqlDb C) (scanner : Scanner) (order : Map Index → Map Index)
    (name : String) (d : MySqlDatabase C) (s : Schema) (table now : ℕ) (tr : TableRegistry E)
    → name ≢ ""
    → (get_schema sql scanner order name d).0 ≡ ok s
    → (register name (some table) (some s) now tr).0 ≡ done
unfolding register register_given register_checked fresh_metadata
discovered_registers sql scanner order name d s table now tr given h =
    let (_, _, _, _, found) = get_schema_discovers sql scanner order name d s h in
    ground (arith, found.named, eq_iff name "", eq_iff s.table_name name)
