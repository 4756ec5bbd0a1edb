-- ===== src/Client/New.antt =====
-- `NewClientImpl` of internal/client/client.go, with a provider that is given. `K` and `D` are the
-- connections to the KV store and to MySQL, and `mysql` is what `NewMySQLDatabase` comes to.
use shock_absorber.Prelude.{
  ℕ, ◌≡◌, ap, subst, sym, Bool, false, List, [], ◌∷◌, Map, errorf, Result, ok, err, Done, done,
  wrap, and_then, and_then-eq_ok, wrap-eq_ok, ok_injective, if◌then◌else◌, ◌==◌, arith, eq_iff, inl,
  inr,
}
use shock_absorber.Registry.Config.{InternalConfig, InternalDatabaseConfig}
use shock_absorber.Registry.Config.Defaults.{
  Decoder, ConfigManager, new_config_manager, load_from_yaml, load_from_yaml_safe,
}
use shock_absorber.Registry.Config.Validation.{validate_config, default_validators}
use shock_absorber.Registry.Tables.{new_table_registry}
use shock_absorber.Backend.Factory.{KvStoreFactory, create_store}
use shock_absorber.Client.Convert.{convert_to_kv_store_config}
use shock_absorber.Client.Ops.{ClientImpl}

module _ {K D : Type 0} (factories : Map (KvStoreFactory K))
    (mysql : InternalDatabaseConfig → Result D) where
  unfoldable pub connect_database : InternalDatabaseConfig → Result D
  connect_database c =
      if c.type == "mysql"
      then wrap "failed to create database" [] (mysql c)
      else err (errorf "unsupported database type: %s" (c.type ∷ []))

  unfoldable pub initialize_connections : InternalConfig → Result (K × D)
  unfolding connect_database
  initialize_connections config =
      and_then
        (wrap "failed to create KV store" []
          (create_store factories (convert_to_kv_store_config config.kv_store)))
        λ store. and_then (connect_database config.database) λ database. ok (store, database)

  -- Without a connection to MySQL there is no client.
  connect_database-mysql :
      (c : InternalDatabaseConfig) (d : D) → connect_database c ≡ ok d → c.type ≡ "mysql"
  unfolding connect_database
  connect_database-mysql c d h = ground (arith, eq_iff c.type "mysql")

  initialize_connections-mysql :
      (c : InternalConfig) (p : K × D) → initialize_connections c ≡ ok p → c.database.type ≡ "mysql"
  unfolding initialize_connections
  initialize_connections-mysql c p h =
      let store = create_store factories (convert_to_kv_store_config c.kv_store) in
      let (_, _, rest) = and_then-eq_ok (wrap "failed to create KV store" [] store) _ p h in
      let (d, e, _) = and_then-eq_ok (connect_database c.database) _ p rest in
      connect_database-mysql c.database d e

  module _ {E : Type 0} (is_redis : K → Bool) (decode : Decoder) (instances : ℕ → Bool)
      (env : E) where
    unfoldable pub connected : InternalConfig → K × D → ClientImpl E
    connected config p = record {
      config = config;
      kv_store_is_redis = is_redis p.0;
      registry = new_table_registry config instances env;
      closed = false;
    }

    -- The client once its configuration is loaded.
    unfoldable pub with_config : Done → ConfigManager → Result (ClientImpl E)
    unfolding connected
    with_config r cm = and_then (wrap "failed to load config" [] r) λ _.
        and_then (wrap "failed to initialize connections" [] (initialize_connections cm.config))
          λ p. ok (connected cm.config p)

    unfoldable pub new_client_impl : Result (List ℕ) → Result (ClientImpl E)
    unfolding with_config
    new_client_impl yaml = and_then (wrap "failed to get config YAML" [] yaml) λ text.
        let (r, cm) = load_from_yaml decode default_validators text new_config_manager in
        with_config r cm

    with_config-ok :
        (r : Done) (cm : ConfigManager) (c : ClientImpl E)
        → with_config r cm ≡ ok c
        → (r ≡ done) × (c.config ≡ cm.config) × (cm.config.database.type ≡ "mysql")
    unfolding with_config connected
    with_config-ok r cm c h =
        let (_, loaded, rest) = and_then-eq_ok (wrap "failed to load config" [] r) _ c h in
        let made = initialize_connections cm.config in
        let (p, e, same) =
          and_then-eq_ok (wrap "failed to initialize connections" [] made) _ c rest in
        (
          wrap-eq_ok "failed to load config" [] r tt loaded,
          ap (λ c. c.config) (sym (ok_injective (connected cm.config p) c same)),
          initialize_connections-mysql cm.config p
              (wrap-eq_ok "failed to initialize connections" [] made p e),
        )

    -- A client that `NewClientImpl` returns has a configuration that `validateConfig` accepts and a
    -- database of type mysql.
    pub new_client_impl_accepted :
        (yaml : Result (List ℕ)) (c : ClientImpl E)
        → new_client_impl yaml ≡ ok c
        → (validate_config default_validators c.config ≡ done) × (c.config.database.type ≡ "mysql")
    unfolding new_client_impl
    new_client_impl_accepted yaml c h =
        let (text, _, rest) = and_then-eq_ok (wrap "failed to get config YAML" [] yaml) _ c h in
        let (r, cm) = load_from_yaml decode default_validators text new_config_manager in
        let (loaded, same, is_mysql) = with_config-ok r cm c rest in
        elim (load_from_yaml_safe decode default_validators text new_config_manager) [
          | inl (_, accepted) ↦
              subst
                (λ config.
                  (validate_config default_validators config ≡ done)
                  × (config.database.type ≡ "mysql"))
                (sym same) (accepted, is_mysql)
          | inr (failed, _) ↦ absurd (failed loaded)
        ]
