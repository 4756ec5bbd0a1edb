-- ===== src/Server/Main.antt =====
-- `main` of cmd/test-server/main.go: the client, its table and the start of its drainer. A failure ends the
-- process; the HTTP server and the signals are left out.
-- `backends` is what the instance of the table gives its drainer; `schema` and `kafka` are what the
-- database and the Kafka queue answer when the table is enabled at the time `now`.
use shock_absorber.Prelude.{
  ℕ, pos, ◌≡◌, ◌∙◌, refl, ap, Bool, true, false, List, [], ◌∷◌, Map, insert, lookup, Result, ok,
  err, Done, and_then,
}
use shock_absorber.Core.{Schema}
use shock_absorber.Registry.Config.{InternalConfig, InternalDatabaseConfig}
use shock_absorber.Registry.Config.Defaults.{Decoder}
use shock_absorber.Registry.Tables.{
  new_table_registry, register_given, register_checked, enable_table,
}
use shock_absorber.Registry.Tables as Tables
use shock_absorber.Registry.Lifecycle.{execute_enable_hooks, run_enable, new_lifecycle_manager}
use shock_absorber.Backend.Factory.{KvStoreFactory}
use shock_absorber.Settings.Yaml.{Node}
use shock_absorber.Settings.Read.{effective}
use shock_absorber.Settings.{Config}
use shock_absorber.Drainer.{checked_config}
use shock_absorber.Drainer.Restart.{start}
use shock_absorber.Drainer.Manager.{Drainer, new_drainer, start_all}
use shock_absorber.Client.Ops.{
  ClientImpl, QueueKind, create_queue, memory_queue, enable_found, enable_discovered,
  enable_registered,
}
use shock_absorber.Client.Ops as Ops
use shock_absorber.Client.New.{initialize_connections, connected}
use shock_absorber.Client.Wrapper.{
  ClientWrapper, new_client, enable_kv, start_client, track, track_enabled, table_drainer,
  drainer_config, to_list, table_settings, apply_options, filled, with_drain_rate,
}
use shock_absorber.Client.Public.{IsYaml, connect, connect-effective}
use shock_absorber.Server.Settings.{server_config, server_config_accepted, memory_payments}
use shock_absorber.Client.Serves.{enable_kv_serves}
use shock_absorber.Registry.Tables.Queries.{is_enabled}

-- A new client puts the table of payments, once it is discovered, under `fresh`.
payment_enabled :
    {E : Type 0} (config : InternalConfig) (is_redis : Bool) (instances : ℕ → Bool) (env : E)
    (now fresh : ℕ) (s : Schema) (kafka : Done) (queue : QueueKind)
    → create_queue config.write_back is_redis kafka ≡ ok queue
    → s.table_name ≡ "payment"
    → let c : ClientImpl E = record {
      config = config;
      kv_store_is_redis = is_redis;
      registry = new_table_registry config instances env;
      closed = false;
    } in
      (Ops.enable_kv "payment" now fresh (ok s) kafka c).0 ≡ ok fresh
unfolding Ops.enable_kv enable_found enable_discovered enable_registered Tables.get Tables.register
    register_given register_checked Tables.enable_kv enable_table lookup insert execute_enable_hooks
    run_enable new_table_registry new_lifecycle_manager
payment_enabled config is_redis instances env now fresh s kafka queue made named =
    rw (made, named) refl

module _ {K D E V : Type 0} (factories : Map (KvStoreFactory K))
    (mysql : InternalDatabaseConfig → Result D) (is_redis : K → Bool)
    (marshal : Node → Result (List ℕ)) (unmarshal : Decoder) (instances : ℕ → Bool) (env : E)
    (backends : ℕ → V) (now fresh : ℕ) (schema : Result Schema) (kafka : Done) where
  started : Result ℕ × ClientWrapper E V → Result (ℕ × ClientWrapper E V)
  started (ok table, cw) = ok (table, start_client false cw)
  started (err e, cw) = err e

  -- Enables the table of payments and starts the drainers.
  prepare : ClientWrapper E V → Result (ℕ × ClientWrapper E V)
  unfolding started
  prepare cw =
      started (
        enable_kv false "payment" (with_drain_rate (pos 5) ∷ []) backends now fresh schema kafka cw)

  -- The client that `EnableKV` leaves.
  abbrev enabled_impl : ClientImpl E → ClientImpl E
  enabled_impl c = (Ops.enable_kv "payment" now fresh schema kafka c).1

  -- The drainer of the table of payments, running.
  abbrev pub payment_drainer : Config → ℕ → Drainer V
  payment_drainer config table =
      let d : Drainer V =
        new_drainer "payment" (backends table) (drainer_config config.write_back (pos 5)) in
      record d { state = start false d.state }

  prepare-enabled :
      (config : Config) (c : ClientImpl E) (table : ℕ)
      → (Ops.enable_kv "payment" now fresh schema kafka c).0 ≡ ok table
      → prepare (new_client config c)
        ≡ ok (
          table,
          record (new_client {V = V} config (enabled_impl c)) {
            tables = ("payment", table) ∷ [];
            drainer_manager = record {
              drainers = ("payment", payment_drainer config table) ∷ [];
              config = drainer_config config.write_back config.write_back.drain_rate;
            };
            started = true;
          },
        )
  unfolding prepare enable_kv track_enabled track table_drainer to_list table_settings apply_options
      filled with_drain_rate start_client start_all new_client started start insert lookup
  prepare-enabled config c table e = rw e refl

  pub launch : Result (ℕ × ClientWrapper E V)
  unfolding prepare
  launch =
      and_then (connect factories mysql is_redis marshal unmarshal instances env server_config)
        prepare

  -- With a text for its configuration, connections to both servers and a table "payment" that the
  -- database describes, the server comes up: it has a running client with the configuration that was
  -- given, on which that table is enabled and has the one drainer, running, at five operations a second.
  pub launch_drains :
      (b : ℕ) (bs : List ℕ) (p : K × D) (s : Schema)
      → IsYaml marshal unmarshal server_config b bs
      → initialize_connections factories mysql (effective server_config) ≡ ok p
      → schema ≡ ok s
      → s.table_name ≡ "payment"
      → (cw : ClientWrapper E V) × (d : Drainer V) × (launch ≡ ok (fresh, cw))
        × (cw.started ≡ true)
        × (cw.config ≡ server_config)
        × (is_enabled cw.impl.registry "payment" ≡ ok true)
        × (cw.drainer_manager.drainers ≡ ("payment", d) ∷ [])
        × (d.backends ≡ backends fresh)
        × (d.config.drain_rate ≡ pos 5)
        × (d.state.running ≡ true)
  unfolding launch connected start new_client checked_config
  launch_drains b bs p s yaml connects discovered named =
      let c : ClientImpl E =
        connected factories mysql is_redis unmarshal instances env (effective server_config) p in
      let made = memory_payments c.kv_store_is_redis kafka in
      let enables : (Ops.enable_kv "payment" now fresh schema kafka c).0 ≡ ok fresh =
        rw discovered (
          payment_enabled (effective server_config) (is_redis p.0) instances env now fresh s kafka
            (memory_queue (pos 10000)) made named) in
      let (_, enabled, _) = enable_kv_serves "payment" now fresh fresh schema kafka c enables in
      let joins : connect factories mysql is_redis marshal unmarshal instances env {V = V}
            server_config
          ≡ ok (new_client server_config c) =
        connect-effective factories mysql is_redis marshal unmarshal instances env server_config b
          bs yaml
        ∙ simp (server_config_accepted, connects) in
      (
        _,
        payment_drainer server_config fresh,
        ap (λ r. and_then r prepare) joins ∙ prepare-enabled server_config c fresh enables,
        refl,
        refl,
        enabled,
        refl,
        refl,
        refl,
        refl,
      )
