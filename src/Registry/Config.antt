-- ===== src/Registry/Config.antt =====
-- internal/registry/internal_config.go and config.go: the configuration, its defaults and tests.
-- `int` and `time.Duration` values are integers; durations are in nanoseconds. The thresholds of
-- the auto-scaling are floats: NaN, an infinity or a whole number over a power of two.
pub mod Validation
pub mod Defaults
pub mod Env
pub mod Files
pub mod Tables
pub mod Effective
use shock_absorber.Prelude.{Float, String, ℤ, Bool, List, Map}

pub record InternalRedisConfig : Type 0 where
  pub endpoints : List String
  pub cluster_mode : Bool
  pub password : String
  pub db : ℤ
  pub pool_size : ℤ
  pub min_idle_conns : ℤ

pub record InternalDynamoDbConfig : Type 0 where
  pub region : String
  pub table_name : String
  pub endpoint : String
  pub access_key_id : String
  pub secret_access_key : String

pub record InternalCassandraConfig : Type 0 where
  pub hosts : List String
  pub keyspace : String
  pub consistency_level : String
  pub username : String
  pub password : String

pub record InternalKvStoreConfig : Type 0 where
  pub type : String
  pub redis_config : InternalRedisConfig
  pub dynamo_db_config : InternalDynamoDbConfig
  pub cassandra_config : InternalCassandraConfig
  pub max_retries : ℤ
  pub dial_timeout : ℤ
  pub read_timeout : ℤ
  pub write_timeout : ℤ

pub record InternalDatabaseConfig : Type 0 where
  pub type : String
  pub host : String
  pub port : ℤ
  pub database : String
  pub username : String
  pub password : String
  pub ssl_mode : String
  pub max_open_conns : ℤ
  pub max_idle_conns : ℤ
  pub conn_max_lifetime : ℤ
  pub conn_max_idle_time : ℤ
  pub connection_timeout : ℤ

pub record InternalTableConfig : Type 0 where
  pub ttl : ℤ
  pub write_back_batch_size : ℤ
  pub drain_rate : ℤ
  pub enabled : Bool
  pub namespace : String

pub record InternalKafkaConfig : Type 0 where
  pub brokers : List String
  pub topic : String
  pub group_id : String
  pub batch_size : ℤ
  pub batch_timeout : ℤ
  pub write_timeout : ℤ
  pub read_timeout : ℤ
  pub required_acks : ℤ
  pub max_message_bytes : ℤ
  pub min_bytes : ℤ
  pub max_bytes : ℤ
  pub max_wait : ℤ

pub record InternalWriteBackConfig : Type 0 where
  pub batch_size : ℤ
  pub drain_rate : ℤ
  pub max_retries : ℤ
  pub retry_backoff_base : ℤ
  pub retry_backoff_max : ℤ
  pub default_ttl : ℤ
  pub queue_type : String
  pub queue_buffer_size : ℤ
  pub kafka_config : InternalKafkaConfig

pub record InternalAutoScalingConfig : Type 0 where
  pub enabled : Bool
  pub min_drainers : ℤ
  pub max_drainers : ℤ
  pub cpu_threshold_high : Float
  pub cpu_threshold_low : Float
  pub scale_up_cooldown : ℤ
  pub scale_down_cooldown : ℤ
  pub monitoring_interval : ℤ

pub record InternalConfig : Type 0 where
  pub kv_store : InternalKvStoreConfig
  pub database : InternalDatabaseConfig
  pub tables : Map InternalTableConfig
  pub write_back : InternalWriteBackConfig
  pub auto_scaling : InternalAutoScalingConfig
