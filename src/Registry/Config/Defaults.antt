-- ===== src/Registry/Config/Defaults.antt =====
-- `defaultInternalConfig` of internal/registry/config.go, and `LoadFromYAML` and `LoadFromJSON`
-- over a decoder, which is a package outside the repository.
use shock_absorber.Prelude.{
  whole, ◌*◌, ◌≡◌, ◌≢◌, String, pos, negsuc, false, List, [], ◌∷◌, Result, ok, err, Exec, wrapf,
  Done, and_then, wrap, done, ℕ, ◌⊎◌, arith,
}
use shock_absorber.Registry.Config.{InternalConfig, InternalRedisConfig, InternalKafkaConfig}
use shock_absorber.Registry.Config.Validation.{ValidatorRegistry, validate_config}

-- time.Second, in nanoseconds.
abbrev pub second : ℕ
second = 1000000000

abbrev default_redis : InternalRedisConfig
default_redis = record {
  endpoints = "localhost:6379" ∷ [];
  cluster_mode = false;
  password = "";
  db = pos 0;
  pool_size = pos 10;
  min_idle_conns = pos 5;
}

abbrev default_kafka : InternalKafkaConfig
default_kafka = record {
  brokers = "localhost:9092" ∷ [];
  topic = "shock-absorber-writeback";
  group_id = "shock-absorber-writeback";
  batch_size = pos 100;
  batch_timeout = pos 10000000;
  write_timeout = pos (10 * second);
  read_timeout = pos (10 * second);
  required_acks = negsuc 0;
  max_message_bytes = pos 1000000;
  min_bytes = pos 1;
  max_bytes = pos (10 * 1024 * 1024);
  max_wait = pos 100000000;
}

abbrev pub default_internal_config : InternalConfig
default_internal_config = record {
  kv_store = record {
    type = "redis";
    redis_config = default_redis;
    dynamo_db_config = record {
      region = "";
      table_name = "";
      endpoint = "";
      access_key_id = "";
      secret_access_key = "";
    };
    cassandra_config = record {
      hosts = [];
      keyspace = "";
      consistency_level = "";
      username = "";
      password = "";
    };
    max_retries = pos 3;
    dial_timeout = pos (5 * second);
    read_timeout = pos (3 * second);
    write_timeout = pos (3 * second);
  };
  database = record {
    type = "mysql";
    host = "localhost";
    port = pos 3306;
    database = "";
    username = "";
    password = "";
    ssl_mode = "";
    max_open_conns = pos 25;
    max_idle_conns = pos 5;
    conn_max_lifetime = pos (300 * second);
    conn_max_idle_time = pos (600 * second);
    connection_timeout = pos (10 * second);
  };
  tables = [];
  write_back = record {
    batch_size = pos 100;
    drain_rate = pos 50;
    max_retries = pos 5;
    retry_backoff_base = pos (1 * second);
    retry_backoff_max = pos (30 * second);
    default_ttl = pos (3600 * second);
    queue_type = "memory";
    queue_buffer_size = pos 10000;
    kafka_config = default_kafka;
  };
  auto_scaling = record {
    enabled = false;
    min_drainers = pos 1;
    max_drainers = pos 10;
    cpu_threshold_high = whole 80;
    cpu_threshold_low = whole 30;
    scale_up_cooldown = pos (60 * second);
    scale_down_cooldown = pos (300 * second);
    monitoring_interval = pos (10 * second);
  };
}

pub record ConfigManager : Type 0 where
  pub config : InternalConfig

pub new_config_manager : ConfigManager
new_config_manager = record { config = default_internal_config }

-- yaml.Unmarshal or json.Unmarshal into a configuration: the text's settings replace those there.
abbrev pub Decoder : Type 0
Decoder = List ℕ → InternalConfig → Result InternalConfig

is_empty : List ℕ → InternalConfig → Result InternalConfig → Result InternalConfig
is_empty [] defaults decoded = ok defaults
is_empty (b ∷ bs) defaults decoded = decoded

-- The body that the two loaders share; `complaint` is the message of a text that does not decode.
load_from : String → Decoder → ValidatorRegistry → List ℕ → Exec ConfigManager (Unit {0})
load_from complaint decode registry text cm =
    let candidate =
      is_empty text default_internal_config
        (wrap complaint [] (decode text default_internal_config)) in
    let accepted =
      and_then candidate (λ c.
        and_then (wrap "invalid configuration" [] (validate_config registry c)) (λ _. ok c)) in
    elim accepted [ ok c ↦ (done, record cm { config = c }) | err e ↦ (err e, cm) ]

pub load_from_yaml : Decoder → ValidatorRegistry → List ℕ → Exec ConfigManager (Unit {0})
unfolding load_from is_empty
load_from_yaml decode = load_from "failed to parse YAML config" decode

abbrev pub loaded : InternalConfig → ConfigManager → Done → Result (Unit {0}) × ConfigManager
loaded c cm (ok u) = (done, record cm { config = c })
loaded c cm (err e) = (err (wrapf "invalid configuration" [] e), cm)

-- What the two loaders do with a text that decodes.
pub load_from_yaml-decoded :
    (decode : Decoder) (registry : ValidatorRegistry) (b : ℕ) (bs : List ℕ) (cm : ConfigManager)
    (c : InternalConfig)
    → decode (b ∷ bs) default_internal_config ≡ ok c
    → load_from_yaml decode registry (b ∷ bs) cm ≡ loaded c cm (validate_config registry c)
unfolding load_from_yaml load_from is_empty
load_from_yaml-decoded decode registry b bs cm c e = ground (arith, e)

pub load_from_json : Decoder → ValidatorRegistry → List ℕ → Exec ConfigManager (Unit {0})
unfolding load_from is_empty
load_from_json decode = load_from "failed to parse JSON config" decode

-- Loading YAML either succeeds, and the manager then holds a configuration that `validateConfig`
-- accepts, or returns an error and leaves the manager as it was.
pub load_from_yaml_safe :
    (decode : Decoder) (registry : ValidatorRegistry) (text : List ℕ) (cm : ConfigManager)
    → let (r, cm') = load_from_yaml decode registry text cm in
      ((r ≡ done) × (validate_config registry cm'.config ≡ done)) ⊎ ((r ≢ done) × (cm' ≡ cm))
unfolding load_from_yaml
load_from_yaml_safe decode registry text cm = ground arith

-- The same of JSON.
pub load_from_json_safe :
    (decode : Decoder) (registry : ValidatorRegistry) (text : List ℕ) (cm : ConfigManager)
    → let (r, cm') = load_from_json decode registry text cm in
      ((r ≡ done) × (validate_config registry cm'.config ≡ done)) ⊎ ((r ≢ done) × (cm' ≡ cm))
unfolding load_from_json
load_from_json_safe decode registry text cm = ground arith
