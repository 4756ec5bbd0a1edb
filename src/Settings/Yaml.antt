-- ===== src/Settings/Yaml.antt =====
-- The YAML between the public configuration and the internal one: the keys by the tags of
-- pkg/shockabsorber/config.go on the one side, and by those of internal/registry/internal_config.go
-- on the other, where a field without a tag has its lower-cased name.
-- What stands here of the package yaml is documented: a zero value of a field with `omitempty` is
-- not written, a key that no field has is ignored, and a field whose key is missing stays as it was.
use shock_absorber.Prelude.{
  Float, String, ℤ, Bool, true, false, not, ◌&&◌, is_zero, List, [], ◌∷◌, Map, if◌then◌else◌, ◌==◌,
}
use shock_absorber.Settings.{
  Config, KvStoreConfig, RedisConfig, DynamoDbConfig, CassandraConfig, DatabaseConfig, TableConfig,
  WriteBackConfig, KafkaConfig, AutoScalingConfig,
}

mutual
  -- `absent` is a value that `omitempty` leaves out.
  pub data Yaml : Type 0 where
    absent : Yaml
    text : String → Yaml
    number duration : ℤ → Yaml
    real : Float → Yaml
    flag : Bool → Yaml
    texts : List String → Yaml
    node : Node → Yaml

  pub data Node : Type 0 where
    no_entries : Node
    entry : String → Yaml → Node → Node

-- The value of a key.
unfoldable pub at : Node → String → Yaml
at no_entries key = absent
at (entry k v rest) key = if k == key then v else at rest key

abbrev pub is_empty : {A : Type 0} → List A → Bool
is_empty [] = true
is_empty (x ∷ xs) = false

abbrev pub omit : Bool → Yaml → Yaml
omit true v = absent
omit false v = v

-- The fields with `omitempty`.
abbrev text_if : String → Yaml
text_if s = omit (s == "") (text s)

abbrev number_if : ℤ → Yaml
number_if z = omit (is_zero z) (number z)

abbrev duration_if : ℤ → Yaml
duration_if z = omit (is_zero z) (duration z)

abbrev pub is_zero_redis : RedisConfig → Bool
is_zero_redis c =
    is_empty c.endpoints
    && not c.cluster_mode
    && c.password == ""
    && is_zero c.db
    && is_zero c.pool_size
    && is_zero c.min_idle_conns

abbrev is_zero_dynamo_db : DynamoDbConfig → Bool
is_zero_dynamo_db c =
    c.region == ""
    && c.table_name == ""
    && c.endpoint == ""
    && c.access_key_id == ""
    && c.secret_access_key == ""

abbrev is_zero_cassandra : CassandraConfig → Bool
is_zero_cassandra c =
    is_empty c.hosts
    && c.keyspace == ""
    && c.consistency_level == ""
    && c.username == ""
    && c.password == ""

abbrev pub is_zero_kafka : KafkaConfig → Bool
is_zero_kafka c =
    is_empty c.brokers
    && c.topic == ""
    && c.group_id == ""
    && is_zero c.batch_size
    && is_zero c.batch_timeout
    && is_zero c.write_timeout
    && is_zero c.read_timeout
    && is_zero c.required_acks
    && is_zero c.max_message_bytes
    && is_zero c.min_bytes
    && is_zero c.max_bytes
    && is_zero c.max_wait

abbrev pub write_redis : RedisConfig → Node
write_redis c = entry "endpoints" (texts c.endpoints) (
    entry "cluster_mode" (flag c.cluster_mode) (
      entry "password" (text_if c.password) (
        entry "db" (number_if c.db) (
          entry "pool_size" (number_if c.pool_size)
            (entry "min_idle_conns" (number_if c.min_idle_conns) no_entries)))))

abbrev write_dynamo_db : DynamoDbConfig → Node
write_dynamo_db c = entry "region" (text c.region) (
    entry "table_name" (text c.table_name) (
      entry "endpoint" (text_if c.endpoint) (
        entry "access_key_id" (text_if c.access_key_id)
          (entry "secret_access_key" (text_if c.secret_access_key) no_entries))))

abbrev write_cassandra : CassandraConfig → Node
write_cassandra c = entry "hosts" (texts c.hosts) (
    entry "keyspace" (text c.keyspace) (
      entry "consistency_level" (text_if c.consistency_level)
        (entry "username" (text_if c.username) (entry "password" (text_if c.password) no_entries))))

abbrev write_store : KvStoreConfig → Node
write_store c = entry "type" (text c.type) (
    entry "redis_config" (omit (is_zero_redis c.redis_config) (node (write_redis c.redis_config))) (
      entry "dynamodb_config"
        (omit (is_zero_dynamo_db c.dynamo_db_config) (node (write_dynamo_db c.dynamo_db_config)))
        (entry "cassandra_config"
          (omit (is_zero_cassandra c.cassandra_config) (node (write_cassandra c.cassandra_config)))
          (entry "max_retries" (number_if c.max_retries) (
            entry "dial_timeout" (duration_if c.dial_timeout) (
              entry "read_timeout" (duration_if c.read_timeout)
                (entry "write_timeout" (duration_if c.write_timeout) no_entries)))))))

abbrev write_database : DatabaseConfig → Node
write_database c = entry "type" (text c.type) (
    entry "host" (text c.host) (
      entry "port" (number c.port) (
        entry "database" (text c.database) (
          entry "username" (text c.username) (
            entry "password" (text_if c.password) (
              entry "ssl_mode" (text_if c.ssl_mode) (
                entry "max_open_conns" (number_if c.max_open_conns) (
                  entry "max_idle_conns" (number_if c.max_idle_conns) (
                    entry "conn_max_lifetime" (duration_if c.conn_max_lifetime) (
                      entry "conn_max_idle_time" (duration_if c.conn_max_idle_time) (
                        entry "connection_timeout" (duration_if c.connection_timeout)
                          no_entries)))))))))))

abbrev pub write_table : TableConfig → Node
write_table c = entry "ttl" (duration_if c.ttl) (
    entry "writeback_batch_size" (number_if c.write_back_batch_size) (
      entry "drain_rate" (number_if c.drain_rate) (
        entry "enabled" (omit (not c.enabled) (flag c.enabled))
          (entry "namespace" (text_if c.namespace) no_entries))))

unfoldable pub write_tables : Map TableConfig → Node
write_tables [] = no_entries
write_tables ((name, c) ∷ rest) = entry name (node (write_table c)) (write_tables rest)

abbrev write_kafka : KafkaConfig → Node
write_kafka c = entry "brokers" (texts c.brokers) (
    entry "topic" (text c.topic) (
      entry "group_id" (text c.group_id) (
        entry "batch_size" (number c.batch_size) (
          entry "batch_timeout" (duration c.batch_timeout) (
            entry "write_timeout" (duration c.write_timeout) (
              entry "read_timeout" (duration c.read_timeout) (
                entry "required_acks" (number c.required_acks) (
                  entry "max_message_bytes" (number c.max_message_bytes) (
                    entry "min_bytes" (number c.min_bytes) (
                      entry "max_bytes" (number c.max_bytes)
                        (entry "max_wait" (duration c.max_wait) no_entries)))))))))))

abbrev write_write_back : WriteBackConfig → Node
write_write_back c = entry "batch_size" (number c.batch_size) (
    entry "drain_rate" (number c.drain_rate) (
      entry "max_retries" (number c.max_retries) (
        entry "retry_backoff_base" (duration c.retry_backoff_base) (
          entry "retry_backoff_max" (duration c.retry_backoff_max) (
            entry "default_ttl" (duration c.default_ttl) (
              entry "queue_type" (text_if c.queue_type) (
                entry "queue_buffer_size" (number_if c.queue_buffer_size) (
                  entry "kafka_config"
                    (omit (is_zero_kafka c.kafka_config) (node (write_kafka c.kafka_config)))
                    no_entries))))))))

abbrev write_auto_scaling : AutoScalingConfig → Node
write_auto_scaling c = entry "enabled" (flag c.enabled) (
    entry "min_drainers" (number c.min_drainers) (
      entry "max_drainers" (number c.max_drainers) (
        entry "cpu_threshold_high" (real c.cpu_threshold_high) (
          entry "cpu_threshold_low" (real c.cpu_threshold_low) (
            entry "scale_up_cooldown" (duration c.scale_up_cooldown) (
              entry "scale_down_cooldown" (duration c.scale_down_cooldown)
                (entry "monitoring_interval" (duration c.monitoring_interval) no_entries)))))))

-- The document that `GetYAML` writes.
unfoldable pub write_config : Config → Node
unfolding write_tables
write_config c = entry "kvstore" (node (write_store c.kv_store)) (
    entry "database" (node (write_database c.database)) (
      entry "tables" (omit (is_empty c.tables) (node (write_tables c.tables))) (
        entry "writeback" (node (write_write_back c.write_back))
          (entry "autoscaling" (node (write_auto_scaling c.auto_scaling)) no_entries))))
