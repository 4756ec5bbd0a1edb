-- ===== src/Registry/Tables.antt =====
-- internal/registry/table_registry.go: the tables by name, with the instances that they refer to.
-- A `core.Table` is a reference; `instance_enabled` is the `enabled` flag of the instance behind
-- it, which `EnableKV` and `DisableKV` of internal/table/table_impl.go set and which never fail.
-- `env` is what the lifecycle hooks read and change. `now` is the clock at the call.
pub mod Queries
mod Writes
pub mod Invariant
pub mod Toggle
use shock_absorber.Prelude.{
  ℕ, String, ◌≡◌, Bool, true, false, not, List, [], ◌∷◌, map, Option, none, some, Map, lookup,
  insert, erase, Result, ok, err, errorf, Done, done, Exec, pure, fail, wrapped, ◌>>=◌, ◌>>◌,
  length, num_eq, if◌then◌else◌, ◌==◌,
}
use shock_absorber.Core.{Schema}
use shock_absorber.Registry.Lifecycle.{
  LifecycleManager, new_lifecycle_manager, execute_enable_hooks, execute_disable_hooks,
}
use shock_absorber.Registry.Config.{InternalConfig, InternalTableConfig}
use shock_absorber.Registry.Config.Tables.{get_table_config}

pub record TableMetadata : Type 0 where
  pub table_name : String
  pub table : ℕ
  pub schema : Schema
  pub config : InternalTableConfig
  pub enabled : Bool
  pub enabled_at : Option ℕ
  pub disabled_at : Option ℕ
  pub created_at : ℕ
  pub updated_at : ℕ

pub record TableRegistry (E : Type 0) : Type 0 where
  pub tables : Map TableMetadata
  pub config : InternalConfig
  pub lifecycle : LifecycleManager E
  pub instance_enabled : ℕ → Bool
  pub env : E

not_registered {ℓ} : {A : Type ℓ} → String → Result A
not_registered name = err (errorf "table %q is not registered" (name ∷ []))

abbrev pub Method : Type 0 → Type 0
Method E = Exec (TableRegistry E) (Unit {0})

abbrev pub preserve : Option TableMetadata → TableMetadata → TableMetadata
preserve none m = m
preserve (some old) m = record m {
  enabled = old.enabled;
  enabled_at = old.enabled_at;
  disabled_at = old.disabled_at;
  created_at = old.created_at;
}

abbrev pub mark_enabled : TableMetadata → ℕ → TableMetadata
mark_enabled m now = record m {
  enabled = true;
  enabled_at = some now;
  disabled_at = none;
  updated_at = now;
}

abbrev pub mark_disabled : TableMetadata → ℕ → TableMetadata
mark_disabled m now = record m {
  enabled = false;
  enabled_at = none;
  disabled_at = some now;
  updated_at = now;
}

module _ {E : Type 0} where
  -- `EnableKV` and `DisableKV` of the instance.
  pub set_instance : ℕ → Bool → Method E
  set_instance ref flag tr = (
    done,
    record tr { instance_enabled = λ i. if num_eq i ref then flag else tr.instance_enabled i },
  )

  pub run_hooks :
      (LifecycleManager E → String → Schema → Exec E (Unit {0})) → TableMetadata → String → Method E
  run_hooks hooks m name tr =
      let (r, env') = hooks tr.lifecycle name m.schema tr.env in (r, record tr { env = env' })

  pub store_metadata : String → TableMetadata → Method E
  store_metadata name m tr = (done, record tr { tables = insert name m tr.tables })

  unfoldable pub fresh_metadata : TableRegistry E → String → ℕ → Schema → ℕ → TableMetadata
  fresh_metadata tr name table schema now = record {
    table_name = name;
    table = table;
    schema = schema;
    config = get_table_config tr.config name;
    enabled = false;
    enabled_at = none;
    disabled_at = none;
    created_at = now;
    updated_at = now;
  }

  unfoldable pub register_checked : String → ℕ → Schema → ℕ → Method E
  unfolding store_metadata fresh_metadata
  register_checked name table schema now tr =
      if schema.table_name == name
      then store_metadata name
          (preserve (lookup name tr.tables) (fresh_metadata tr name table schema now)) tr
      else fail
          (errorf "schema table name %q does not match provided table name %q"
            (schema.table_name ∷ name ∷ []))
          tr

  unfoldable pub register_given : String → Option ℕ → Option Schema → ℕ → Method E
  unfolding register_checked
  register_given name none schema now = fail (errorf "table cannot be nil" [])
  register_given name (some table) none now = fail (errorf "schema cannot be nil" [])
  register_given name (some table) (some schema) now = register_checked name table schema now

  -- `Register`
  unfoldable pub register : String → Option ℕ → Option Schema → ℕ → Method E
  unfolding register_given
  register name table schema now tr =
      if name == ""
      then fail (errorf "table name cannot be empty" []) tr
      else register_given name table schema now tr

  -- `Get`
  unfoldable pub get : TableRegistry E → String → Result ℕ
  unfolding not_registered
  get tr name = elim (lookup name tr.tables) [ none ↦ not_registered name | some m ↦ ok m.table ]

  -- `GetMetadata`
  unfoldable pub get_metadata : TableRegistry E → String → Result TableMetadata
  unfolding not_registered
  get_metadata tr name = elim (lookup name tr.tables) [ none ↦ not_registered name | some m ↦ ok m ]

  unfoldable pub enable_table : String → ℕ → TableMetadata → Method E
  unfolding run_hooks set_instance store_metadata
  enable_table name now m = do
    wrapped "enable hook failed for table %q" (name ∷ []) (run_hooks execute_enable_hooks m name)
    wrapped "failed to enable KV for table %q" (name ∷ []) (set_instance m.table true)
    store_metadata name (mark_enabled m now)

  pub disable_table : String → ℕ → TableMetadata → Method E
  unfolding run_hooks set_instance store_metadata
  disable_table name now m = do
    wrapped "disable hook failed for table %q" (name ∷ []) (run_hooks execute_disable_hooks m name)
    wrapped "failed to disable KV for table %q" (name ∷ []) (set_instance m.table false)
    store_metadata name (mark_disabled m now)

  -- `EnableKV`
  unfoldable pub enable_kv : String → ℕ → Method E
  unfolding enable_table not_registered
  enable_kv name now tr = elim (lookup name tr.tables) [
    | none ↦ (not_registered name, tr)
    | some m ↦ if m.enabled then (done, tr) else enable_table name now m tr
  ]

  -- `DisableKV`
  pub disable_kv : String → ℕ → Method E
  unfolding disable_table not_registered
  disable_kv name now tr = elim (lookup name tr.tables) [
    | none ↦ (not_registered name, tr)
    | some m ↦ if m.enabled then disable_table name now m tr else (done, tr)
  ]

  -- What `Unregister` and `Clear` do to a table that is enabled.
  pub shut_down : String → String → String → TableMetadata → Method E
  unfolding run_hooks set_instance
  shut_down hook_error table_error name m = do
    wrapped hook_error (name ∷ []) (run_hooks execute_disable_hooks m name)
    wrapped table_error (name ∷ []) (set_instance m.table false)

  pub remove_table : String → Method E
  remove_table name tr = (done, record tr { tables = erase name tr.tables })

  pub unregister_table : String → TableMetadata → Method E
  unfolding shut_down remove_table
  unregister_table name m tr =
      if m.enabled
      then (shut_down "disable hook failed during unregister for table %q"
              "failed to disable KV during unregister for table %q" name m
            >> remove_table name)
          tr
      else remove_table name tr

  -- `Unregister`
  pub unregister : String → Method E
  unfolding unregister_table not_registered
  unregister name tr = elim (lookup name tr.tables) [
    | none ↦ (not_registered name, tr)
    | some m ↦ unregister_table name m tr
  ]

  -- The body of the loop of `Clear`.
  pub clear_table : String → TableMetadata → Method E
  unfolding shut_down
  clear_table name m tr =
      if m.enabled
      then shut_down "disable hook failed during clear for table %q"
          "failed to disable KV during clear for table %q" name m tr
      else (done, tr)

  pub shut_down_all : Map TableMetadata → Method E
  shut_down_all [] = pure tt
  shut_down_all ((name, m) ∷ rest) = do clear_table name m; shut_down_all rest

  -- `Clear`
  pub clear : Method E
  clear tr = (shut_down_all tr.tables >> λ tr'. (done, record tr' { tables = [] })) tr

-- The body of the loop of `RefreshConfig`.
unfoldable pub refreshed : InternalConfig → ℕ → Map TableMetadata → Map TableMetadata
refreshed config now [] = []
refreshed config now ((name, m) ∷ rest) =
    (name, record m { config = get_table_config config m.table_name; updated_at = now })
    ∷ refreshed config now rest

module _ {E : Type 0} where
  -- `UpdateConfig`
  unfoldable pub update_config : String → ℕ → Method E
  update_config name now tr = elim (lookup name tr.tables) [
    | none ↦ (err (errorf "table %q is not registered" (name ∷ [])), tr)
    | some m ↦ (
      done,
      record tr {
        tables =
            insert name (record m { config = get_table_config tr.config name; updated_at = now })
              tr.tables;
      },
    )
  ]

  -- `RefreshConfig`
  unfoldable pub refresh_config : ℕ → Exec (TableRegistry E) (Unit {0})
  unfolding refreshed
  refresh_config now tr = (done, record tr { tables = refreshed tr.config now tr.tables })

-- The calls that change a registry.
pub data Call : Type 0 where
  registers : String → Option ℕ → Option Schema → ℕ → Call
  enables disables : String → ℕ → Call
  unregisters : String → Call
  clears : Call
  updates_config : String → ℕ → Call
  refreshes_config : ℕ → Call

module _ {E : Type 0} where
  -- The registry after a call, whether or not it returned an error.
  pub step : TableRegistry E → Call → TableRegistry E
  step tr (registers name table schema now) = (register name table schema now tr).1
  step tr (enables name now) = (enable_kv name now tr).1
  step tr (disables name now) = (disable_kv name now tr).1
  step tr (unregisters name) = (unregister name tr).1
  step tr clears = (clear tr).1
  step tr (updates_config name now) = (update_config name now tr).1
  step tr (refreshes_config now) = (refresh_config now tr).1

  pub run : TableRegistry E → List Call → TableRegistry E
  run tr [] = tr
  run tr (c ∷ cs) = run (step tr c) cs

-- `NewTableRegistry`, with the instances and the environment that it starts with.
unfoldable pub new_table_registry : {E : Type 0} → InternalConfig → (ℕ → Bool) → E → TableRegistry E
new_table_registry config instances env = record {
  tables = [];
  config = config;
  lifecycle = new_lifecycle_manager;
  instance_enabled = instances;
  env = env;
}
