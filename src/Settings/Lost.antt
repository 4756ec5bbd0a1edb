-- ===== src/Settings/Lost.antt =====
-- The settings that the way through YAML changes.
use shock_absorber.Prelude.{
  String, ℤ, pos, negsuc, not, ◌≡◌, refl, Bool, true, false, [], ◌∷◌, Option, some, Map, lookup,
  lookup-insert, is_zero, if◌then◌else◌, ◌==◌, arith, eq_iff, ap, ◌∙◌,
}
use shock_absorber.Registry.Config.{InternalTableConfig, InternalDatabaseConfig}
use shock_absorber.Registry.Config.Defaults.{default_internal_config}
use shock_absorber.Settings.{Config, TableConfig, DatabaseConfig, RedisConfig}
use shock_absorber.Settings.Yaml.{
  omit, text, number, duration, flag, node, is_empty, write_redis, at, write_config, write_tables,
  write_table, is_zero_redis,
}
use shock_absorber.Registry.Config.Tables.{or_default}
use mathlib.Core.Option
use shock_absorber.Settings.Read.{
  flag_or, node_or, text_or, number_or, duration_or, zero_table, effective, read_config,
  read_kv_store, read_redis, read_database, read_tables, read_table, read_write_back,
  read_auto_scaling,
}

text_or-omit : (s : String) → text_or (omit (s == "") (text s)) "" ≡ s
text_or-omit s = ground (arith, eq_iff s "")

number_or-omit : (z d : ℤ) → number_or (omit (is_zero z) (number z)) d ≡ or_default z d
number_or-omit z d = ground arith

duration_or-omit : (z d : ℤ) → duration_or (omit (is_zero z) (duration z)) d ≡ or_default z d
duration_or-omit z d = ground arith

-- The settings of a database that come through.
abbrev pub kept_database : DatabaseConfig → InternalDatabaseConfig
kept_database d = record default_internal_config.database {
  type = d.type;
  host = d.host;
  port = d.port;
  database = d.database;
  username = d.username;
  password = d.password;
}

pub effective-database : (c : Config) → (effective c).database ≡ kept_database c.database
unfolding effective read_config write_config at read_database
effective-database c =
    ap
      (λ s. record default_internal_config.database {
        type = c.database.type;
        host = c.database.host;
        port = c.database.port;
        database = c.database.database;
        username = c.database.username;
        password = s;
      })
      (text_or-omit c.database.password)

effective-auto_scaling :
    (c : Config)
    → (effective c).auto_scaling
      ≡ record default_internal_config.auto_scaling { enabled = c.auto_scaling.enabled }
unfolding effective read_config write_config at read_auto_scaling
effective-auto_scaling c = refl

read_redis-fixed :
    (b : Bool) (c : RedisConfig)
    → let r =
        node_or read_redis
          (omit b (node (write_redis c)))
          default_internal_config.kv_store.redis_config in
      (r.cluster_mode ≡ false) × (r.pool_size ≡ pos 10) × (r.min_idle_conns ≡ pos 5)
unfolding read_redis at
read_redis-fixed true c = (refl, refl, refl)
read_redis-fixed false c = (refl, refl, refl)

effective-redis :
    (c : Config)
    → let r = (effective c).kv_store.redis_config in
      (r.cluster_mode ≡ false) × (r.pool_size ≡ pos 10) × (r.min_idle_conns ≡ pos 5)
unfolding effective read_config write_config at read_kv_store read_redis
effective-redis c = read_redis-fixed (is_zero_redis c.kv_store.redis_config) c.kv_store.redis_config

-- The settings of a table that come through.
abbrev pub kept_table : TableConfig → InternalTableConfig
kept_table t = record zero_table { ttl = t.ttl; enabled = t.enabled; namespace = t.namespace }

flag_or-omit : (b : Bool) → flag_or (omit (not b) (flag b)) false ≡ b
flag_or-omit true = refl
flag_or-omit false = refl

duration_or_self : (z : ℤ) → duration_or (omit (is_zero z) (duration z)) (pos 0) ≡ z
duration_or_self (pos n) = ground arith
duration_or_self (negsuc n) = refl

read_table-kept : (t : TableConfig) → read_table (write_table t) zero_table ≡ kept_table t
unfolding read_table at
read_table-kept t =
    rw (duration_or_self t.ttl, flag_or-omit t.enabled, text_or-omit t.namespace) refl

if-map :
    (b : Bool) (t : TableConfig) (o : Option TableConfig)
    → (if b then some (kept_table t) else Option.map kept_table o)
      ≡ Option.map kept_table (if b then some t else o)
if-map true t o = refl
if-map false t o = refl

read_tables-omit :
    (m : Map TableConfig)
    → node_or read_tables (omit (is_empty m) (node (write_tables m))) []
      ≡ read_tables (write_tables m) []
unfolding read_tables write_tables
read_tables-omit [] = refl
read_tables-omit (e ∷ m) = refl

lookup-read_tables :
    (name : String) (m : Map TableConfig)
    → lookup name (read_tables (write_tables m) []) ≡ Option.map kept_table (lookup name m)
unfolding read_tables write_tables lookup
lookup-read_tables name [] = refl
lookup-read_tables name ((key, t) ∷ m) =
    lookup-insert key name (read_table (write_table t) zero_table) (read_tables (write_tables m) [])
    ∙ rw (read_table-kept t, lookup-read_tables name m) (if-map (key == name) t (lookup name m))

pub effective-tables :
    (c : Config) (name : String)
    → lookup name (effective c).tables ≡ Option.map kept_table (lookup name c.tables)
unfolding effective read_config write_config at
effective-tables c name =
    ap (lookup name) (read_tables-omit c.tables) ∙ lookup-read_tables name c.tables

pub effective-write_back :
    (c : Config)
    → let w = (effective c).write_back in
      (w.batch_size ≡ c.write_back.batch_size)
      × (w.drain_rate ≡ c.write_back.drain_rate)
      × (w.default_ttl ≡ c.write_back.default_ttl)
      × (w.max_retries ≡ c.write_back.max_retries)
      × (w.queue_buffer_size ≡ or_default c.write_back.queue_buffer_size (pos 10000))
unfolding effective read_config write_config at read_write_back
effective-write_back c =
    (refl, refl, refl, refl, number_or-omit c.write_back.queue_buffer_size (pos 10000))

-- Whatever the public configuration says: once it has gone through YAML, the sizes and times of the
-- database's pool, the SSL mode, the cluster mode and the pool of Redis and the thresholds and times
-- of the auto-scaling are the internal defaults. The other settings of the database, and whether the
-- auto-scaling is enabled, are as they were.
pub settings_lost :
    (c : Config)
    → let e = effective c in
      let r = e.kv_store.redis_config in
      (e.database ≡ kept_database c.database)
      × (e.auto_scaling
          ≡ record default_internal_config.auto_scaling { enabled = c.auto_scaling.enabled })
      × (r.cluster_mode ≡ false)
      × (r.pool_size ≡ pos 10)
      × (r.min_idle_conns ≡ pos 5)
settings_lost c =
    let (cluster, pool, idle) = effective-redis c in
    (effective-database c, effective-auto_scaling c, cluster, pool, idle)
