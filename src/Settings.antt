-- ===== src/Settings.antt =====
-- pkg/shockabsorber/config.go: the configuration that users write, and its way to the internal one
-- of internal/registry.
-- `int` and `time.Duration` values are integers; durations are in nanoseconds. The thresholds of
-- the auto-scaling are floats: NaN, an infinity or a whole number over a power of two.
pub mod Default
pub mod Yaml
pub mod Read
pub mod Lost
pub mod Tables
pub mod Accepted
use shock_absorber.Prelude.{Float, String, ℤ, Bool, List, Map}

pub record RedisConfig : Type 0 where
  pub endpoints : List String
  pub cluster_mode : Bool
  pub password : String
  pub db : ℤ
  pub pool_size : ℤ
  pub min_idle_conns : ℤ

pub record DynamoDbConfig : Type 0 where
  pub region : String
  pub table_name : String
  pub endpoint : String
  pub access_key_id : String
  pub secret_access_key : String

pub record CassandraConfig : Type 0 where
  pub hosts : List String
  pub keyspace : String
  pub consistency_level : String
  pub username : String
  pub password : String

pub record KvStoreConfig : Type 0 where
  pub type : String
  pub redis_config : RedisConfig
  pub dynamo_db_config : DynamoDbConfig
  pub cassandra_config : CassandraConfig
  pub max_retries : ℤ
  pub dial_timeout : ℤ
  pub read_timeout : ℤ
  pub write_timeout : ℤ

pub record DatabaseConfig : Type 0 where
  pub type : String
  pub host : String
  pub port : ℤ
  pub database : String
  pub username : String
  pub password : String
  pub ssl_mode : String
  pub max_open_conns : ℤ
  pub max_idle_conns : ℤ
  pub conn_max_lifetime : ℤ
  pub conn_max_idle_time : ℤ
  pub connection_timeout : ℤ

pub record TableConfig : Type 0 where
  pub ttl : ℤ
  pub write_back_batch_size : ℤ
  pub drain_rate : ℤ
  pub enabled : Bool
  pub namespace : String

pub record KafkaConfig : Type 0 where
  pub brokers : List String
  pub topic : String
  pub group_id : String
  pub batch_size : ℤ
  pub batch_timeout : ℤ
  pub write_timeout : ℤ
  pub read_timeout : ℤ
  pub required_acks : ℤ
  pub max_message_bytes : ℤ
  pub min_bytes : ℤ
  pub max_bytes : ℤ
  pub max_wait : ℤ

pub record WriteBackConfig : Type 0 where
  pub batch_size : ℤ
  pub drain_rate : ℤ
  pub max_retries : ℤ
  pub retry_backoff_base : ℤ
  pub retry_backoff_max : ℤ
  pub default_ttl : ℤ
  pub queue_type : String
  pub queue_buffer_size : ℤ
  pub kafka_config : KafkaConfig

pub record AutoScalingConfig : Type 0 where
  pub enabled : Bool
  pub min_drainers : ℤ
  pub max_drainers : ℤ
  pub cpu_threshold_high : Float
  pub cpu_threshold_low : Float
  pub scale_up_cooldown : ℤ
  pub scale_down_cooldown : ℤ
  pub monitoring_interval : ℤ

pub record Config : Type 0 where
  pub kv_store : KvStoreConfig
  pub database : DatabaseConfig
  pub tables : Map TableConfig
  pub write_back : WriteBackConfig
  pub auto_scaling : AutoScalingConfig
