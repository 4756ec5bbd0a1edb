-- ===== src/Tests/Registries.antt =====
-- The theorems on the registry and the configuration, at small registries.
use shock_absorber.Prelude.{
  ◌++◌, ℕ, suc, String, pos, ◌≡◌, ◌≢◌, refl, Bool, true, false, List, [], ◌∷◌, none, some, errorf,
  done, ok, err, if◌then◌else◌, ◌==◌, arith, num_eq, lookup, insert, ◌↔◌, eq_iff,
}
use shock_absorber.Core.{Schema, Record, string, integer, int, nil}
use shock_absorber.Registry.Lifecycle.{LifecycleHook, execute_enable_hooks, run_enable}
use shock_absorber.Registry.Config.{InternalTableConfig}
use shock_absorber.Registry.Config.Defaults.{default_internal_config, new_config_manager, Decoder}
use shock_absorber.Registry.Config.Validation.{validate_config, default_validators}
use shock_absorber.Registry.Config.Validation.Sound.{
  IsValidDatabase, IsValidWriteBack, IsValidAutoScaling,
}
use shock_absorber.Registry.Config.Validation.Accepts.{validate_config_iff}
use shock_absorber.Registry.Config.Validation.Stores.{IsValidKvStore}
use shock_absorber.Registry.Tables.{
  TableMetadata, TableRegistry, register, enable_kv, get, run, registers, enables, disables,
  unregisters,
}
use shock_absorber.Registry.Tables.Queries.{is_enabled}
use shock_absorber.Registry.Tables.Invariant.{Inv, run-Inv}
use shock_absorber.Registry.Config.Files.{file, load, LoadsSafely, load_safe}
use shock_absorber.Client.Ops.{ClientImpl, create_queue}
use shock_absorber.Client.Ops as Client
use shock_absorber.Client.Serves.{enable_kv_serves}
use shock_absorber.Tests.Servers.{users_schema}

abbrev table_config : InternalTableConfig
table_config = record {
  ttl = pos 0;
  write_back_batch_size = pos 0;
  drain_rate = pos 0;
  enabled = false;
  namespace = "";
}

abbrev metadata : String → ℕ → Bool → TableMetadata
metadata name table enabled = record {
  table_name = name;
  table = table;
  schema = record users_schema { table_name = name };
  config = table_config;
  enabled = enabled;
  enabled_at = if enabled then some 3 else none;
  disabled_at = none;
  created_at = 1;
  updated_at = 3;
}

-- A hook that counts its calls, and fails to let go of the orders.
abbrev counting_hook : LifecycleHook ℕ
counting_hook = record {
  handle = 1;
  on_enable = λ name schema n. (done, suc n);
  on_disable =
      λ name schema n. (if name == "orders" then err (errorf "in use" []) else done, suc n);
}

abbrev registry : List (String × TableMetadata) → TableRegistry ℕ
registry tables = record {
  tables = tables;
  config = default_internal_config;
  lifecycle = record { hooks = counting_hook ∷ [] };
  instance_enabled = λ i. num_eq i 8;
  env = 0;
}

abbrev disabled_users : TableRegistry ℕ
disabled_users = registry (("users", metadata "users" 7 false) ∷ [])

abbrev enabled_users : TableRegistry ℕ
enabled_users = registry (("users", metadata "users" 8 true) ∷ [])

-- A client whose registry has no table.
abbrev client_without_tables : ClientImpl ℕ
client_without_tables = record {
  config = default_internal_config;
  kv_store_is_redis = true;
  registry = registry [];
  closed = false;
}

users_discovered :
    (Client.enable_kv "users" 4 9 (ok users_schema) done client_without_tables).0 ≡ ok 9
unfolding Client.enable_kv create_queue lookup execute_enable_hooks run_enable get register
    enable_kv insert
users_discovered = refl

enable_kv_serves_example :
    let c = (Client.enable_kv "users" 4 9 (ok users_schema) done client_without_tables).1 in
    (Client.get_table c "users" ≡ ok 9)
    × (is_enabled c.registry "users" ≡ ok true)
    × ((table : ℕ) → Client.get_table client_without_tables "users" ≡ ok table → 9 ≡ table)
enable_kv_serves_example =
    enable_kv_serves "users" 4 9 9 (ok users_schema) done client_without_tables users_discovered

users_not_empty : ◌≢◌ {A = String} "users" ""
users_not_empty = ground (arith, eq_iff "users" "")

empty_Inv : Inv []
unfolding lookup
empty_Inv = record { at = λ j m e. cc }

run-Inv_example :
    Inv
      (run (registry []) (
        registers "users" (some 7) (some users_schema) 1
        ∷ enables "users" 2
        ∷ disables "users" 3
        ∷ unregisters "users"
        ∷ [])).tables
run-Inv_example =
    run-Inv (registry [])
      (registers "users" (some 7) (some users_schema) 1
        ∷ enables "users" 2
        ∷ disables "users" 3
        ∷ unregisters "users"
        ∷ [])
      empty_Inv

abbrev keep_all : Decoder
keep_all text c = ok c

load_safe_example :
    LoadsSafely keep_all keep_all default_validators new_config_manager
      (load keep_all keep_all default_validators (file ".json" (ok (1 ∷ []))) new_config_manager)
load_safe_example =
    load_safe keep_all keep_all default_validators (file ".json" (ok (1 ∷ []))) new_config_manager

validate_config_iff_example :
    (validate_config default_validators default_internal_config ≡ done) ↔ (
      IsValidKvStore default_internal_config
      × IsValidDatabase default_internal_config.database
      × IsValidWriteBack default_internal_config.write_back
      × IsValidAutoScaling default_internal_config.auto_scaling)
validate_config_iff_example = validate_config_iff default_internal_config

abbrev two_columns : Schema
two_columns = record users_schema {
  columns =
      users_schema.columns
      ++ record { name = "age"; type = "INT"; nullable = true; default = nil } ∷ [];
}

abbrev person : Record
person = ("id", string "1") ∷ []

abbrev birthday : Record
birthday = ("age", integer int (pos 3)) ∷ []
