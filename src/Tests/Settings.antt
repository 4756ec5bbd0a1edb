-- ===== src/Tests/Settings.antt =====
-- A configuration with a table, and the theorems on its way through YAML at it.
use shock_absorber.Prelude.{pos, ◌≡◌, true, false, [], ◌∷◌}
use shock_absorber.Registry.Config.Defaults.{default_internal_config}
use shock_absorber.Settings.{Config}
use shock_absorber.Settings.Default.{default_config}
use shock_absorber.Settings.Read.{effective}
use shock_absorber.Settings.Lost.{kept_database, settings_lost}

-- A pool of 100 connections, and a table that is drained at a rate of 7.
abbrev shop : Config
shop = record default_config {
  database = record default_config.database {
    database = "shop";
    username = "root";
    max_open_conns = pos 100;
  };
  tables =
      (
        "users",
        record {
          ttl = pos 0;
          write_back_batch_size = pos 9;
          drain_rate = pos 7;
          enabled = true;
          namespace = "n";
        },
      )
      ∷ [];
}

settings_lost_example :
    let e = effective shop in
    let r = e.kv_store.redis_config in
    (e.database ≡ kept_database shop.database)
    × (e.auto_scaling ≡ record default_internal_config.auto_scaling { enabled = false })
    × (r.cluster_mode ≡ false)
    × (r.pool_size ≡ pos 10)
    × (r.min_idle_conns ≡ pos 5)
settings_lost_example = settings_lost shop
