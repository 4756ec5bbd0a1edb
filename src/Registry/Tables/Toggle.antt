-- ===== src/Registry/Tables/Toggle.antt =====
-- Enabling, disabling and clearing: what a call does when it succeeds and when a hook fails.
use shock_absorber.Prelude.{
  ℕ, String, ◌≡◌, ◌≢◌, true, false, ◌∷◌, some, Map, lookup, insert, lookup-insert_self, arith,
  eq_iff, ◌⊎◌, ok, err, Error, done,
}
use shock_absorber.Core.{Schema}
use shock_absorber.Registry.Lifecycle.{execute_disable_hooks}
use shock_absorber.Registry.Tables.{
  TableMetadata, TableRegistry, register, register_given, register_checked, enable_kv, disable_kv,
  enable_table, disable_table, clear, clear_table, shut_down, shut_down_all, mark_enabled,
  mark_disabled, get, fresh_metadata, preserve,
}
use shock_absorber.Registry.Tables.Queries.{is_enabled}

module _ {E : Type 0} where
  enable_table_atomic :
      (name : String) (now : ℕ) (m : TableMetadata) (tr : TableRegistry E)
      → let (r, tr') = enable_table name now m tr in
        ((r ≡ done)
          × (tr'.tables ≡ insert name (mark_enabled m now) tr.tables)
          × (tr'.instance_enabled m.table ≡ true))
        ⊎ ((r ≢ done) × (tr'.tables ≡ tr.tables) × (tr'.instance_enabled ≡ tr.instance_enabled))
  unfolding enable_table
  enable_table_atomic name now m tr = ground arith

  -- `EnableKV` on a registered table that is disabled: either it succeeds, the entry is marked
  -- enabled at the time of the call, the instance is switched on and no other entry changes; or it
  -- returns an error, and neither the entries nor any instance has changed.
  pub enable_kv_atomic :
      (name : String) (now : ℕ) (m : TableMetadata) (tr : TableRegistry E)
      → lookup name tr.tables ≡ some m
      → m.enabled ≡ false
      → let (r, tr') = enable_kv name now tr in
        ((r ≡ done)
          × (tr'.tables ≡ insert name (mark_enabled m now) tr.tables)
          × (tr'.instance_enabled m.table ≡ true))
        ⊎ ((r ≢ done) × (tr'.tables ≡ tr.tables) × (tr'.instance_enabled ≡ tr.instance_enabled))
  unfolding enable_kv
  enable_kv_atomic name now m tr e f = rw (e, f, enable_kv) (enable_table_atomic name now m tr)

  disable_table_atomic :
      (name : String) (now : ℕ) (m : TableMetadata) (tr : TableRegistry E)
      → let (r, tr') = disable_table name now m tr in
        ((r ≡ done)
          × (tr'.tables ≡ insert name (mark_disabled m now) tr.tables)
          × (tr'.instance_enabled m.table ≡ false))
        ⊎ ((r ≢ done) × (tr'.tables ≡ tr.tables) × (tr'.instance_enabled ≡ tr.instance_enabled))
  unfolding disable_table
  disable_table_atomic name now m tr = ground arith

  -- `DisableKV` on a registered table that is enabled: either it succeeds, the entry is marked
  -- disabled at the time of the call, the instance is switched off and no other entry changes; or it
  -- returns an error, and neither the entries nor any instance has changed.
  pub disable_kv_atomic :
      (name : String) (now : ℕ) (m : TableMetadata) (tr : TableRegistry E)
      → lookup name tr.tables ≡ some m
      → m.enabled ≡ true
      → let (r, tr') = disable_kv name now tr in
        ((r ≡ done)
          × (tr'.tables ≡ insert name (mark_disabled m now) tr.tables)
          × (tr'.instance_enabled m.table ≡ false))
        ⊎ ((r ≢ done) × (tr'.tables ≡ tr.tables) × (tr'.instance_enabled ≡ tr.instance_enabled))
  unfolding disable_kv
  disable_kv_atomic name now m tr e f = rw (e, f, disable_kv) (disable_table_atomic name now m tr)

  -- Registering another instance, which is switched off, under the name of an enabled table, with
  -- a schema of that name: the registry then reports the table enabled and hands out the new
  -- instance, `EnableKV` returns without an error and without any change, and the new instance
  -- stays switched off.
  pub register_over_enabled :
      (name : String) (table now later : ℕ) (schema : Schema) (old : TableMetadata)
      (tr : TableRegistry E)
      → name ≢ ""
      → schema.table_name ≡ name
      → lookup name tr.tables ≡ some old
      → old.enabled ≡ true
      → tr.instance_enabled table ≡ false
      → let (r, tr') = register name (some table) (some schema) now tr in
        (r ≡ done)
        × (is_enabled tr' name ≡ ok true)
        × (get tr' name ≡ ok table)
        × (enable_kv name later tr' ≡ (done, tr'))
        × (tr'.instance_enabled table ≡ false)
  unfolding register register_given register_checked fresh_metadata is_enabled get enable_kv
  register_over_enabled name table now later schema old tr n s e f off = ground (
    arith,
    eq_iff name "",
    eq_iff schema.table_name name,
    lookup-insert_self name (preserve (some old) (fresh_metadata tr name table schema now))
        tr.tables,
  )

  -- `Clear` on two enabled tables or more, where the hooks let the first go and fail for the second:
  -- it returns an error, every entry is still there and still marked enabled, and the instance of
  -- the first table is switched off.
  pub clear_fails_halfway :
      (a b : String) (m n : TableMetadata) (rest : Map TableMetadata) (tr : TableRegistry E)
      (env env' : E) (x : Error)
      → tr.tables ≡ (a, m) ∷ (b, n) ∷ rest
      → m.enabled ≡ true
      → n.enabled ≡ true
      → execute_disable_hooks tr.lifecycle a m.schema tr.env ≡ (ok tt, env)
      → execute_disable_hooks tr.lifecycle b n.schema env ≡ (err x, env')
      → let (r, tr') = clear tr in
        (r ≢ done) × (tr'.tables ≡ tr.tables) × (tr'.instance_enabled m.table ≡ false)
  unfolding clear shut_down_all clear_table shut_down
  clear_fails_halfway a b m n rest tr env env' x e p q h k = ground arith
