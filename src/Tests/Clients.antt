-- ===== src/Tests/Clients.antt =====
-- Clients with a table, and the theorems on their drainers at them.
use shock_absorber.Prelude.{ℕ, ◌≡◌, refl, true, false, [], ◌∷◌, none, some, ok, done, pos, lookup}
use shock_absorber.Registry.Config.Defaults.{default_internal_config}
use shock_absorber.Settings.Default.{default_config}
use shock_absorber.Registry.Config.Tables.{get_table_config}
use shock_absorber.Registry.Tables as Tables
use shock_absorber.Drainer.Restart.{start, new_state}
use shock_absorber.Drainer.Manager.{Drainer, get_drainer}
use shock_absorber.Client.Ops.{ClientImpl, enable_found, enable_known}
use shock_absorber.Client.Ops as Ops
use shock_absorber.Client.Wrapper.{
  ClientWrapper, drainer_config, new_client, enable_kv, track_enabled,
}
use shock_absorber.Client.Runs.{
  ClientCall, enables, disables, starts, stops, cancels, InStep, calls, calls-InStep,
}
use shock_absorber.Client.Replaced.{IsReplaced, enable_kv_leaks}
use shock_absorber.Tests.Servers.{users_schema}

-- The table `users` is registered and enabled, with the instance 8.
abbrev impl : ClientImpl ℕ
impl = record {
  config = default_internal_config;
  kv_store_is_redis = true;
  registry = record {
    tables =
        (
          "users",
          record {
            table_name = "users";
            table = 8;
            schema = record users_schema { table_name = "users" };
            config = get_table_config default_internal_config "users";
            enabled = true;
            enabled_at = some 3;
            disabled_at = none;
            created_at = 1;
            updated_at = 3;
          },
        )
        ∷ [];
    config = default_internal_config;
    lifecycle = record { hooks = [] };
    instance_enabled = λ i. true;
    env = 0;
  };
  closed = false;
}

abbrev enable_users : ClientCall ℕ
enable_users = enables false "users" [] (λ table. table) 4 9 (ok users_schema) done

calls-InStep_example : InStep (
    calls
      (enable_users
        ∷ starts true
        ∷ enable_users
        ∷ cancels "users"
        ∷ disables "users" 5
        ∷ stops
        ∷ [])
      (new_client default_config impl))
calls-InStep_example =
    calls-InStep default_config impl (
      enable_users ∷ starts true ∷ enable_users ∷ cancels "users" ∷ disables "users" 5 ∷ stops ∷ [])

-- A client that runs, with a running drainer for the table.
abbrev users_drainer : Drainer ℕ
users_drainer = record {
  table_name = "users";
  backends = 8;
  config = drainer_config default_config.write_back (pos 50);
  state = start false new_state;
}

abbrev running_client : ClientWrapper ℕ ℕ
running_client = record {
  impl = impl;
  config = default_config;
  drainer_manager = record {
    drainers = ("users", users_drainer) ∷ [];
    config = drainer_config default_config.write_back (pos 50);
  };
  tables = ("users", 8) ∷ [];
  started = true;
  replaced = [];
}

has_drainer : get_drainer "users" running_client.drainer_manager ≡ some users_drainer
unfolding get_drainer lookup
has_drainer = refl

enabled_again :
    (enable_kv false "users" [] (λ table. table) 4 9 (ok users_schema) done running_client).0 ≡ ok 8
unfolding enable_kv track_enabled Ops.enable_kv enable_found enable_known Tables.get
    Tables.get_metadata lookup
enabled_again = refl

enable_kv_leaks_example : IsReplaced users_drainer (
    calls
      (stops ∷ [])
      (enable_kv false "users" [] (λ table. table) 4 9 (ok users_schema) done running_client).1)
enable_kv_leaks_example =
    enable_kv_leaks false "users" [] (λ table. table) 4 9 8 (ok users_schema) done users_drainer
      running_client (stops ∷ []) has_drainer enabled_again
