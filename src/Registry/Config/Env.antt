-- ===== src/Registry/Config/Env.antt =====
-- `LoadFromEnv` of internal/registry/config.go. The environment, and what fmt.Sscanf and
-- time.ParseDuration read from a text, are outside the repository; a variable that is not set is
-- the empty text.
use shock_absorber.Prelude.{
  Float, String, ℤ, Bool, ◌||◌, ◌≡◌, ◌≢◌, ◌⊎◌, List, [], ◌∷◌, Result, ok, err, Exec, wrap, done,
  if◌then◌else◌, ◌==◌, arith,
}
use shock_absorber.Registry.Config.{
  InternalConfig, InternalKvStoreConfig, InternalRedisConfig, InternalDatabaseConfig,
  InternalWriteBackConfig, InternalAutoScalingConfig,
}
use shock_absorber.Registry.Config.Validation.{ValidatorRegistry, validate_config}
use shock_absorber.Registry.Config.Defaults.{ConfigManager, default_internal_config}

-- `%d` and `%f` of Sscanf, ParseDuration and strings.Split at commas.
pub record Environment : Type 0 where
  pub getenv : String → String
  pub scan_int : String → Result ℤ
  pub scan_float : String → Result Float
  pub parse_duration : String → Result ℤ
  pub split_commas : String → List String

-- A change of the configuration by one variable.
abbrev Setting : Type 0
Setting = InternalConfig → InternalConfig

on_kv_store : (InternalKvStoreConfig → InternalKvStoreConfig) → Setting
on_kv_store f c = record c { kv_store = f c.kv_store }

on_redis : (InternalRedisConfig → InternalRedisConfig) → Setting
unfolding on_kv_store
on_redis f = on_kv_store λ k. record k { redis_config = f k.redis_config }

on_database : (InternalDatabaseConfig → InternalDatabaseConfig) → Setting
on_database f c = record c { database = f c.database }

on_write_back : (InternalWriteBackConfig → InternalWriteBackConfig) → Setting
on_write_back f c = record c { write_back = f c.write_back }

on_auto_scaling : (InternalAutoScalingConfig → InternalAutoScalingConfig) → Setting
on_auto_scaling f c = record c { auto_scaling = f c.auto_scaling }

-- The end of `LoadFromEnv`, with the configuration that was read.
install : ValidatorRegistry → InternalConfig → Exec ConfigManager (Unit {0})
install registry c cm = elim (wrap "invalid configuration" [] (validate_config registry c)) [
  | ok u ↦ (done, record cm { config = c })
  | err e ↦ (err e, cm)
]

install_safe :
    (registry : ValidatorRegistry) (c : InternalConfig) (cm : ConfigManager)
    → let (r, cm') = install registry c cm in
      ((r ≡ done) × (validate_config registry cm'.config ≡ done)) ⊎ ((r ≢ done) × (cm' ≡ cm))
unfolding install
install_safe registry c cm = ground arith

module _ (env : Environment) where
  text_setting : String → (String → Setting) → Setting
  text_setting name change c =
      let changed = change (env.getenv name) c in if env.getenv name == "" then c else changed

  number_setting : {A : Type 0} → (String → Result A) → String → (A → Setting) → Setting
  unfolding text_setting
  number_setting read name change =
      text_setting name λ text c. elim (read text) [ ok n ↦ change n c | err e ↦ c ]

  flag_setting : String → (Bool → Setting) → Setting
  unfolding text_setting
  flag_setting name change = text_setting name λ text. change (text == "true" || text == "1")

  kv_store_settings : List Setting
  unfolding text_setting number_setting flag_setting on_kv_store on_redis on_database on_write_back
      on_auto_scaling
  kv_store_settings =
      text_setting "SHOCK_ABSORBER_KVSTORE_TYPE" (λ text. on_kv_store λ r. record r { type = text })
      ∷ text_setting "SHOCK_ABSORBER_KVSTORE_ENDPOINTS"
          (λ text. on_redis λ r. record r { endpoints = env.split_commas text })
      ∷ flag_setting "SHOCK_ABSORBER_KVSTORE_CLUSTER_MODE"
          (λ flag. on_redis λ r. record r { cluster_mode = flag })
      ∷ text_setting "SHOCK_ABSORBER_KVSTORE_PASSWORD"
          (λ text. on_redis λ r. record r { password = text })
      ∷ number_setting env.scan_int "SHOCK_ABSORBER_KVSTORE_DB"
          (λ n. on_redis λ r. record r { db = n })
      ∷ number_setting env.scan_int "SHOCK_ABSORBER_KVSTORE_MAX_RETRIES"
          (λ n. on_kv_store λ r. record r { max_retries = n })
      ∷ number_setting env.scan_int "SHOCK_ABSORBER_KVSTORE_POOL_SIZE"
          (λ n. on_redis λ r. record r { pool_size = n })
      ∷ []

  database_settings : List Setting
  unfolding text_setting number_setting flag_setting on_kv_store on_redis on_database on_write_back
      on_auto_scaling
  database_settings =
      text_setting "SHOCK_ABSORBER_DATABASE_TYPE"
        (λ text. on_database λ r. record r { type = text })
      ∷ text_setting "SHOCK_ABSORBER_DATABASE_HOST"
          (λ text. on_database λ r. record r { host = text })
      ∷ number_setting env.scan_int "SHOCK_ABSORBER_DATABASE_PORT"
          (λ n. on_database λ r. record r { port = n })
      ∷ text_setting "SHOCK_ABSORBER_DATABASE_DATABASE"
          (λ text. on_database λ r. record r { database = text })
      ∷ text_setting "SHOCK_ABSORBER_DATABASE_USERNAME"
          (λ text. on_database λ r. record r { username = text })
      ∷ text_setting "SHOCK_ABSORBER_DATABASE_PASSWORD"
          (λ text. on_database λ r. record r { password = text })
      ∷ text_setting "SHOCK_ABSORBER_DATABASE_SSL_MODE"
          (λ text. on_database λ r. record r { ssl_mode = text })
      ∷ number_setting env.scan_int "SHOCK_ABSORBER_DATABASE_MAX_OPEN_CONNS"
          (λ n. on_database λ r. record r { max_open_conns = n })
      ∷ number_setting env.scan_int "SHOCK_ABSORBER_DATABASE_MAX_IDLE_CONNS"
          (λ n. on_database λ r. record r { max_idle_conns = n })
      ∷ []

  write_back_settings : List Setting
  unfolding text_setting number_setting flag_setting on_kv_store on_redis on_database on_write_back
      on_auto_scaling
  write_back_settings =
      number_setting env.scan_int "SHOCK_ABSORBER_WRITEBACK_BATCH_SIZE"
        (λ n. on_write_back λ r. record r { batch_size = n })
      ∷ number_setting env.scan_int "SHOCK_ABSORBER_WRITEBACK_DRAIN_RATE"
          (λ n. on_write_back λ r. record r { drain_rate = n })
      ∷ number_setting env.scan_int "SHOCK_ABSORBER_WRITEBACK_MAX_RETRIES"
          (λ n. on_write_back λ r. record r { max_retries = n })
      ∷ number_setting env.parse_duration "SHOCK_ABSORBER_WRITEBACK_DEFAULT_TTL"
          (λ n. on_write_back λ r. record r { default_ttl = n })
      ∷ text_setting "SHOCK_ABSORBER_WRITEBACK_QUEUE_TYPE"
          (λ text. on_write_back λ r. record r { queue_type = text })
      ∷ []

  auto_scaling_settings : List Setting
  unfolding text_setting number_setting flag_setting on_kv_store on_redis on_database on_write_back
      on_auto_scaling
  auto_scaling_settings =
      flag_setting "SHOCK_ABSORBER_AUTOSCALING_ENABLED"
        (λ flag. on_auto_scaling λ r. record r { enabled = flag })
      ∷ number_setting env.scan_int "SHOCK_ABSORBER_AUTOSCALING_MIN_DRAINERS"
          (λ n. on_auto_scaling λ r. record r { min_drainers = n })
      ∷ number_setting env.scan_int "SHOCK_ABSORBER_AUTOSCALING_MAX_DRAINERS"
          (λ n. on_auto_scaling λ r. record r { max_drainers = n })
      ∷ number_setting env.scan_float "SHOCK_ABSORBER_AUTOSCALING_CPU_THRESHOLD_HIGH"
          (λ n. on_auto_scaling λ r. record r { cpu_threshold_high = n })
      ∷ number_setting env.scan_float "SHOCK_ABSORBER_AUTOSCALING_CPU_THRESHOLD_LOW"
          (λ n. on_auto_scaling λ r. record r { cpu_threshold_low = n })
      ∷ []

  apply_all : List Setting → Setting
  apply_all [] c = c
  apply_all (f ∷ fs) c = apply_all fs (f c)

  -- The default configuration with what the environment sets, in the order of the code.
  from_env : InternalConfig
  unfolding apply_all kv_store_settings database_settings write_back_settings auto_scaling_settings
  from_env = apply_all auto_scaling_settings (
      apply_all write_back_settings
        (apply_all database_settings (apply_all kv_store_settings default_internal_config)))

  -- `LoadFromEnv`
  pub load_from_env : ValidatorRegistry → Exec ConfigManager (Unit {0})
  unfolding from_env install
  load_from_env registry = install registry from_env

  -- Loading the environment either succeeds, and the manager then holds a configuration that
  -- `validateConfig` accepts, or returns an error and leaves the manager as it was.
  pub load_from_env_safe :
      (registry : ValidatorRegistry) (cm : ConfigManager)
      → let (r, cm') = load_from_env registry cm in
        ((r ≡ done) × (validate_config registry cm'.config ≡ done)) ⊎ ((r ≢ done) × (cm' ≡ cm))
  unfolding load_from_env
  load_from_env_safe registry cm = install_safe registry from_env cm
