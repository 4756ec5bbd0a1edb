-- ===== src/Settings/Read.antt =====
-- yaml.Unmarshal of a document into an internal configuration: the keys of the fields of
-- internal/registry/internal_config.go. The values of a document are of their fields' types, as
-- `GetYAML` writes them.
use shock_absorber.Prelude.{Float, over_power, String, ℤ, pos, Bool, false, List, Map, insert}
use shock_absorber.Registry.Config.{
  InternalConfig, InternalKvStoreConfig, InternalRedisConfig, InternalDynamoDbConfig,
  InternalCassandraConfig, InternalDatabaseConfig, InternalTableConfig, InternalWriteBackConfig,
  InternalKafkaConfig, InternalAutoScalingConfig,
}
use shock_absorber.Registry.Config.Defaults.{default_internal_config}
use shock_absorber.Settings.{Config}
use shock_absorber.Settings.Yaml.{
  real, Yaml, text, number, duration, flag, texts, node, Node, no_entries, entry, at, write_config,
}

abbrev pub text_or : Yaml → String → String
text_or (text s) old = s
text_or _ old = old

abbrev pub number_or : Yaml → ℤ → ℤ
number_or (number z) old = z
number_or _ old = old

abbrev real_or : Yaml → Float → Float
real_or (real x) old = x
real_or (number z) old = over_power z 0
real_or _ old = old

abbrev pub duration_or : Yaml → ℤ → ℤ
duration_or (duration z) old = z
duration_or _ old = old

abbrev pub flag_or : Yaml → Bool → Bool
flag_or (flag b) old = b
flag_or _ old = old

abbrev pub texts_or : Yaml → List String → List String
texts_or (texts ss) old = ss
texts_or _ old = old

abbrev pub node_or : {A : Type 0} → (Node → A → A) → Yaml → A → A
node_or f (node n) old = f n old
node_or f _ old = old

unfoldable pub read_redis : Node → InternalRedisConfig → InternalRedisConfig
unfolding at
read_redis n old = record {
  endpoints = texts_or (at n "endpoints") old.endpoints;
  cluster_mode = flag_or (at n "clustermode") old.cluster_mode;
  password = text_or (at n "password") old.password;
  db = number_or (at n "db") old.db;
  pool_size = number_or (at n "poolsize") old.pool_size;
  min_idle_conns = number_or (at n "minidleconns") old.min_idle_conns;
}

unfoldable pub read_dynamo_db : Node → InternalDynamoDbConfig → InternalDynamoDbConfig
unfolding at
read_dynamo_db n old = record {
  region = text_or (at n "region") old.region;
  table_name = text_or (at n "table_name") old.table_name;
  endpoint = text_or (at n "endpoint") old.endpoint;
  access_key_id = text_or (at n "access_key_id") old.access_key_id;
  secret_access_key = text_or (at n "secret_access_key") old.secret_access_key;
}

unfoldable pub read_cassandra : Node → InternalCassandraConfig → InternalCassandraConfig
unfolding at
read_cassandra n old = record {
  hosts = texts_or (at n "hosts") old.hosts;
  keyspace = text_or (at n "keyspace") old.keyspace;
  consistency_level = text_or (at n "consistencylevel") old.consistency_level;
  username = text_or (at n "username") old.username;
  password = text_or (at n "password") old.password;
}

unfoldable pub read_kv_store : Node → InternalKvStoreConfig → InternalKvStoreConfig
unfolding at read_redis read_dynamo_db read_cassandra
read_kv_store n old = record {
  type = text_or (at n "type") old.type;
  redis_config = node_or read_redis (at n "redis_config") old.redis_config;
  dynamo_db_config = node_or read_dynamo_db (at n "dynamodb_config") old.dynamo_db_config;
  cassandra_config = node_or read_cassandra (at n "cassandra_config") old.cassandra_config;
  max_retries = number_or (at n "max_retries") old.max_retries;
  dial_timeout = duration_or (at n "dial_timeout") old.dial_timeout;
  read_timeout = duration_or (at n "read_timeout") old.read_timeout;
  write_timeout = duration_or (at n "write_timeout") old.write_timeout;
}

unfoldable pub read_database : Node → InternalDatabaseConfig → InternalDatabaseConfig
unfolding at
read_database n old = record {
  type = text_or (at n "type") old.type;
  host = text_or (at n "host") old.host;
  port = number_or (at n "port") old.port;
  database = text_or (at n "database") old.database;
  username = text_or (at n "username") old.username;
  password = text_or (at n "password") old.password;
  ssl_mode = text_or (at n "sslmode") old.ssl_mode;
  max_open_conns = number_or (at n "maxopenconns") old.max_open_conns;
  max_idle_conns = number_or (at n "maxidleconns") old.max_idle_conns;
  conn_max_lifetime = duration_or (at n "connmaxlifetime") old.conn_max_lifetime;
  conn_max_idle_time = duration_or (at n "connmaxidletime") old.conn_max_idle_time;
  connection_timeout = duration_or (at n "connectiontimeout") old.connection_timeout;
}

unfoldable pub read_table : Node → InternalTableConfig → InternalTableConfig
unfolding at
read_table n old = record {
  ttl = duration_or (at n "ttl") old.ttl;
  write_back_batch_size = number_or (at n "writebackbatchsize") old.write_back_batch_size;
  drain_rate = number_or (at n "drainrate") old.drain_rate;
  enabled = flag_or (at n "enabled") old.enabled;
  namespace = text_or (at n "namespace") old.namespace;
}

abbrev pub zero_table : InternalTableConfig
zero_table = record {
  ttl = pos 0;
  write_back_batch_size = pos 0;
  drain_rate = pos 0;
  enabled = false;
  namespace = "";
}

-- The values of a map are new; the keys of a document differ.
unfoldable pub read_tables : Node → Map InternalTableConfig → Map InternalTableConfig
unfolding read_table
read_tables no_entries old = old
read_tables (entry name v rest) old =
    insert name (node_or read_table v zero_table) (read_tables rest old)

unfoldable pub read_kafka : Node → InternalKafkaConfig → InternalKafkaConfig
unfolding at
read_kafka n old = record {
  brokers = texts_or (at n "brokers") old.brokers;
  topic = text_or (at n "topic") old.topic;
  group_id = text_or (at n "group_id") old.group_id;
  batch_size = number_or (at n "batch_size") old.batch_size;
  batch_timeout = duration_or (at n "batch_timeout") old.batch_timeout;
  write_timeout = duration_or (at n "write_timeout") old.write_timeout;
  read_timeout = duration_or (at n "read_timeout") old.read_timeout;
  required_acks = number_or (at n "required_acks") old.required_acks;
  max_message_bytes = number_or (at n "max_message_bytes") old.max_message_bytes;
  min_bytes = number_or (at n "min_bytes") old.min_bytes;
  max_bytes = number_or (at n "max_bytes") old.max_bytes;
  max_wait = duration_or (at n "max_wait") old.max_wait;
}

unfoldable pub read_write_back : Node → InternalWriteBackConfig → InternalWriteBackConfig
unfolding at read_kafka
read_write_back n old = record {
  batch_size = number_or (at n "batch_size") old.batch_size;
  drain_rate = number_or (at n "drain_rate") old.drain_rate;
  max_retries = number_or (at n "max_retries") old.max_retries;
  retry_backoff_base = duration_or (at n "retry_backoff_base") old.retry_backoff_base;
  retry_backoff_max = duration_or (at n "retry_backoff_max") old.retry_backoff_max;
  default_ttl = duration_or (at n "default_ttl") old.default_ttl;
  queue_type = text_or (at n "queue_type") old.queue_type;
  queue_buffer_size = number_or (at n "queue_buffer_size") old.queue_buffer_size;
  kafka_config = node_or read_kafka (at n "kafka_config") old.kafka_config;
}

unfoldable pub read_auto_scaling : Node → InternalAutoScalingConfig → InternalAutoScalingConfig
unfolding at
read_auto_scaling n old = record {
  enabled = flag_or (at n "enabled") old.enabled;
  min_drainers = number_or (at n "mindrainers") old.min_drainers;
  max_drainers = number_or (at n "maxdrainers") old.max_drainers;
  cpu_threshold_high = real_or (at n "cputhresholdhigh") old.cpu_threshold_high;
  cpu_threshold_low = real_or (at n "cputhresholdlow") old.cpu_threshold_low;
  scale_up_cooldown = duration_or (at n "scaleupcooldown") old.scale_up_cooldown;
  scale_down_cooldown = duration_or (at n "scaledowncooldown") old.scale_down_cooldown;
  monitoring_interval = duration_or (at n "monitoringinterval") old.monitoring_interval;
}

unfoldable pub read_config : Node → InternalConfig → InternalConfig
unfolding at read_kv_store read_database read_tables read_write_back read_auto_scaling
read_config n old = record {
  kv_store = node_or read_kv_store (at n "kvstore") old.kv_store;
  database = node_or read_database (at n "database") old.database;
  tables = node_or read_tables (at n "tables") old.tables;
  write_back = node_or read_write_back (at n "writeback") old.write_back;
  auto_scaling = node_or read_auto_scaling (at n "autoscaling") old.auto_scaling;
}

-- What the internal configuration is, once the public one has gone through YAML.
unfoldable pub effective : Config → InternalConfig
unfolding read_config write_config
effective c = read_config (write_config c) default_internal_config
