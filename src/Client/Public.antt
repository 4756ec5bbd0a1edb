-- ===== src/Client/Public.antt =====
-- `NewClient` of pkg/shockabsorber/client.go with `GetYAML`, which hands the public configuration to
-- `NewClientImpl` as YAML.
-- `marshal` and `unmarshal` are those of the package yaml.
use shock_absorber.Prelude.{
  ℕ, ◌≡◌, refl, ap, subst, ok_injective, and_then-eq_ok, ◌∙◌, Bool, List, ◌∷◌, [], Map, Result, ok,
  err, Done, wrap, and_then,
}
use shock_absorber.Registry.Config.{InternalConfig, InternalDatabaseConfig}
use shock_absorber.Registry.Config.Defaults.{
  Decoder, default_internal_config, new_config_manager, load_from_yaml, loaded,
  load_from_yaml-decoded, ConfigManager,
}
use shock_absorber.Registry.Config.Validation.{validate_config, default_validators}
use shock_absorber.Registry.Config.Validation.Accepts.{validate_config_iff}
use shock_absorber.Registry.Config.Validation.Stores.{IsValidKvStore}
use shock_absorber.Registry.Config.Validation.Sound.{
  IsValidDatabase, IsValidWriteBack, IsValidAutoScaling,
}
use shock_absorber.Backend.Factory.{KvStoreFactory}
use shock_absorber.Settings.{Config}
use shock_absorber.Settings.Yaml.{Node, write_config}
use shock_absorber.Settings.Read.{effective, read_config}
use shock_absorber.Client.Ops.{ClientImpl}
use shock_absorber.Client.New.{
  initialize_connections, connected, with_config, new_client_impl, new_client_impl_accepted,
}
use shock_absorber.Client.Wrapper.{ClientWrapper, new_client}

-- The text of a configuration is not empty, and sets the fields whose keys it has.
pub record IsYaml (marshal : Node → Result (List ℕ)) (unmarshal : Decoder) (c : Config) (b : ℕ)
    (bs : List ℕ) : Type 0 where
  pub written : marshal (write_config c) ≡ ok (b ∷ bs)
  pub reads :
      (old : InternalConfig) → unmarshal (b ∷ bs) old ≡ ok (read_config (write_config c) old)

-- What `NewClient` promises of a client for a configuration.
abbrev pub IsConnected : {E V : Type 0} → Config → ClientWrapper E V → Type 0
IsConnected c w =
    let e = w.impl.config in
    (w.config ≡ c)
    × IsValidKvStore e
    × IsValidDatabase e.database
    × (e.database.type ≡ "mysql")
    × IsValidWriteBack e.write_back
    × IsValidAutoScaling e.auto_scaling

module _ {K D E : Type 0} (factories : Map (KvStoreFactory K))
    (mysql : InternalDatabaseConfig → Result D) (is_redis : K → Bool)
    (marshal : Node → Result (List ℕ)) (unmarshal : Decoder) (instances : ℕ → Bool) (env : E) where
  -- What a configuration that has been read leads to.
  abbrev loaded_client : InternalConfig → Done → Result (ClientImpl E)
  loaded_client e valid =
      and_then (wrap "failed to load config" [] (wrap "invalid configuration" [] valid)) λ _.
        and_then
          (wrap "failed to initialize connections" [] (initialize_connections factories mysql e))
          λ p. ok (connected factories mysql is_redis unmarshal instances env e p)

  with_config-loaded :
      (e : InternalConfig) (cm : ConfigManager) (valid : Done)
      → (let (r, cm') = loaded e cm valid in
          with_config factories mysql is_redis unmarshal instances env r cm')
        ≡ loaded_client e valid
  unfolding with_config
  with_config-loaded e cm (ok u) = refl
  with_config-loaded e cm (err x) = refl

  new_client_impl-loaded :
      (c : Config) (b : ℕ) (bs : List ℕ)
      → IsYaml marshal unmarshal c b bs
      → new_client_impl factories mysql is_redis unmarshal instances env (marshal (write_config c))
        ≡ loaded_client (effective c) (validate_config default_validators (effective c))
  unfolding new_client_impl effective
  new_client_impl-loaded c b bs y =
      let e = effective c in
      let start : List ℕ → Result (ClientImpl E) = λ text.
        let (r, cm) = load_from_yaml unmarshal default_validators text new_config_manager in
        with_config factories mysql is_redis unmarshal instances env r cm in
      ap (λ yaml. and_then (wrap "failed to get config YAML" [] yaml) start) y.written
      ∙ ap (λ (r, cm). with_config factories mysql is_redis unmarshal instances env r cm)
          (load_from_yaml-decoded unmarshal default_validators b bs new_config_manager e
            (y.reads default_internal_config))
      ∙ with_config-loaded e new_config_manager (validate_config default_validators e)

  module _ {V : Type 0} where
    -- `NewClient`, with `GetYAML`
    unfoldable pub connect : Config → Result (ClientWrapper E V)
    connect c =
        and_then
          (new_client_impl factories mysql is_redis unmarshal instances env
            (marshal (write_config c)))
          λ impl. ok (new_client c impl)

    wrapped_client :
        (c : Config) (e : InternalConfig) (valid : Done) (r : Result (K × D))
        → (and_then
            (and_then (wrap "failed to load config" [] (wrap "invalid configuration" [] valid)) λ _.
              and_then
                (wrap "failed to initialize connections" [] r)
                λ p. ok (connected factories mysql is_redis unmarshal instances env e p))
            λ impl. ok (new_client {V = V} c impl))
          ≡ (and_then (wrap "failed to load config" [] (wrap "invalid configuration" [] valid)) λ _.
              and_then (wrap "failed to initialize connections" [] r) λ p.
                ok (new_client c (connected factories mysql is_redis unmarshal instances env e p)))
    wrapped_client c e (err x) r = refl
    wrapped_client c e (ok u) (err x) = refl
    wrapped_client c e (ok u) (ok p) = refl

    -- `NewClient`, when the configuration has a text: it fails if the configuration that came through
    -- YAML is not accepted, or if a connection to the store or the database fails, and otherwise
    -- returns a client that works with that configuration and keeps the one that was given.
    pub connect-effective :
        (c : Config) (b : ℕ) (bs : List ℕ)
        → IsYaml marshal unmarshal c b bs
        → connect c ≡ (
            and_then
              (wrap "failed to load config" [] (
                wrap "invalid configuration" [] (validate_config default_validators (effective c))))
              λ _.
                and_then
                  (wrap "failed to initialize connections" []
                    (initialize_connections factories mysql (effective c)))
                  λ p. ok (
                    new_client c
                      (connected factories mysql is_redis unmarshal instances env (effective c) p)))
    unfolding connect
    connect-effective c b bs y =
        ap (λ r. and_then r λ impl. ok (new_client c impl)) (new_client_impl-loaded c b bs y)
        ∙ wrapped_client c (effective c) (validate_config default_validators (effective c))
            (initialize_connections factories mysql (effective c))

    -- Whatever YAML makes of the configuration, a client that `NewClient` returns keeps the one that
    -- was given, and works with one whose KV store, database, write-back and auto-scaling settings
    -- are in range and whose database is MySQL.
    pub connect_accepted : (c : Config) (w : ClientWrapper E V) → connect c ≡ ok w → IsConnected c w
    unfolding connect new_client
    connect_accepted c w h =
        let yaml = marshal (write_config c) in
        let (impl, made, same) =
          and_then-eq_ok (new_client_impl factories mysql is_redis unmarshal instances env yaml) _ w
            h in
        let (valid, is_mysql) =
          new_client_impl_accepted factories mysql is_redis unmarshal instances env yaml impl
            made in
        let (kv, db, wb, sc) = (validate_config_iff impl.config).0 valid in
        subst (IsConnected c) (ok_injective (new_client c impl) w same)
          (refl, kv, db, is_mysql, wb, sc)
