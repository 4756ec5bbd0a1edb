-- ===== src/Registry/Tables/Writes.antt =====
-- What the calls of internal/registry/table_registry.go write to the map of tables.
use shock_absorber.Prelude.{
  ℕ, String, ◌≡◌, refl, [], ◌∷◌, Map, insert, erase, arith, ◌⊎◌, Result, ok, err, ◌∙◌, continue,
}
use shock_absorber.Registry.Tables.{
  TableMetadata, TableRegistry, Method, clear, mark_enabled, mark_disabled, shut_down_all,
  enable_table, disable_table, shut_down, unregister_table, clear_table,
}

module _ {E : Type 0} where
  -- A call that fails leaves the map as it was; one that succeeds has written its entry.
  pub enable_table-tables :
      (name : String) (now : ℕ) (m : TableMetadata) (tr : TableRegistry E)
      → ((enable_table name now m tr).1.tables ≡ tr.tables)
        ⊎ ((enable_table name now m tr).1.tables ≡ insert name (mark_enabled m now) tr.tables)
  unfolding enable_table
  enable_table-tables name now m tr = ground arith

  pub disable_table-tables :
      (name : String) (now : ℕ) (m : TableMetadata) (tr : TableRegistry E)
      → ((disable_table name now m tr).1.tables ≡ tr.tables)
        ⊎ ((disable_table name now m tr).1.tables ≡ insert name (mark_disabled m now) tr.tables)
  unfolding disable_table
  disable_table-tables name now m tr = ground arith

  pub shut_down-tables :
      (a b name : String) (m : TableMetadata) (tr : TableRegistry E)
      → (shut_down a b name m tr).1.tables ≡ tr.tables
  unfolding shut_down
  shut_down-tables a b name m tr = ground arith

  pub unregister_table-tables :
      (name : String) (m : TableMetadata) (tr : TableRegistry E)
      → ((unregister_table name m tr).1.tables ≡ tr.tables)
        ⊎ ((unregister_table name m tr).1.tables ≡ erase name tr.tables)
  unfolding unregister_table
  unregister_table-tables name m tr = ground (arith)

  pub clear_table-tables :
      (name : String) (m : TableMetadata) (tr : TableRegistry E)
      → (clear_table name m tr).1.tables ≡ tr.tables
  unfolding clear_table
  clear_table-tables name m tr = ground (
    arith,
    shut_down-tables "disable hook failed during clear for table %q"
        "failed to disable KV during clear for table %q" name m tr,
  )

  pub continue-tables :
      (t : Map TableMetadata) (r : Result (Unit {0}) × TableRegistry E) (k : Method E)
      → r.1.tables ≡ t
      → ((tr : TableRegistry E) → (k tr).1.tables ≡ tr.tables)
      → (continue r (λ _. k)).1.tables ≡ t
  continue-tables t (ok a, tr) k e h = h tr ∙ e
  continue-tables t (err x, tr) k e h = e

  pub shut_down_all-tables :
      (ms : Map TableMetadata) (tr : TableRegistry E) → (shut_down_all ms tr).1.tables ≡ tr.tables
  unfolding shut_down_all
  shut_down_all-tables [] tr = refl
  shut_down_all-tables ((name, m) ∷ rest) tr =
      continue-tables tr.tables (clear_table name m tr) (shut_down_all rest)
        (clear_table-tables name m tr) (shut_down_all-tables rest)

  pub clear-tables :
      (tr : TableRegistry E) → ((clear tr).1.tables ≡ tr.tables) ⊎ ((clear tr).1.tables ≡ [])
  unfolding clear
  clear-tables tr = ground (arith, shut_down_all-tables tr.tables tr)
