-- ===== src/Server/Settings.antt =====
-- The configuration of `main` of cmd/test-server/main.go.
use shock_absorber.Prelude.{
  ◌*◌, pos, negsuc, ◌≡◌, refl, [], ◌∷◌, inl, eq_iff, arith, lookup, Bool, Done, done, ok,
}
use shock_absorber.Registry.Config.Defaults.{second}
use shock_absorber.Registry.Config.Validation.{
  validate_config, validate_kv_store, validate_write_back, default_validators, run_validator,
  dynamo_db_validate,
}
use shock_absorber.Registry.Config.Validation.Sound.{
  IsValidDatabase, IsValidWriteBack, validate_write_back_sound,
}
use shock_absorber.Registry.Config.Validation.Accepts.{validate_config_parts}
use shock_absorber.Settings.{Config}
use shock_absorber.Settings.Default.{default_config}
use shock_absorber.Settings.Lost.{effective-database}
use shock_absorber.Settings.Yaml.{at, write_config, write_tables}
use shock_absorber.Settings.Read.{
  effective, read_config, read_kv_store, read_redis, read_dynamo_db, read_database, read_tables,
  read_write_back, read_kafka, read_auto_scaling,
}
use shock_absorber.Client.Ops.{create_queue, memory_queue}

abbrev pub server_config : Config
server_config = record default_config {
  kv_store = record default_config.kv_store {
    type = "dynamodb";
    dynamo_db_config = record {
      region = "us-east-1";
      table_name = "shock-absorber-cache";
      endpoint = "http://localhost:4566";
      access_key_id = "test";
      secret_access_key = "test";
    };
  };
  database = record default_config.database {
    host = "localhost";
    port = pos 3306;
    database = "testdb";
    username = "root";
    password = "password";
  };
  write_back = record default_config.write_back {
    queue_type = "memory";
    default_ttl = pos (3600 * second);
    drain_rate = pos 5;
    kafka_config = record {
      brokers = "localhost:9092" ∷ [];
      topic = "shock-absorber-writeback";
      group_id = "shock-absorber-writeback";
      batch_size = pos 100;
      batch_timeout = pos 10000000;
      write_timeout = pos (10 * second);
      read_timeout = pos (10 * second);
      required_acks = negsuc 0;
      max_message_bytes = pos 1000000;
      min_bytes = pos 1;
      max_bytes = pos (10 * 1024 * 1024);
      max_wait = pos 100000000;
    };
  };
}

server_store : validate_kv_store default_validators (effective server_config) ≡ done
unfolding effective read_config write_config write_tables at read_kv_store read_redis read_dynamo_db
    read_database read_tables read_write_back read_kafka read_auto_scaling validate_kv_store
    run_validator default_validators dynamo_db_validate lookup
server_store = refl

server_write_back : IsValidWriteBack (effective server_config).write_back
unfolding effective read_config write_config write_tables at read_database read_tables
    read_write_back read_kafka read_auto_scaling validate_write_back
server_write_back = validate_write_back_sound (effective server_config).write_back refl

server_database : IsValidDatabase (effective server_config).database
server_database = rw (effective-database server_config) record {
  type_known = inl refl;
  host_given = ground (arith, eq_iff "localhost" "");
  port_positive = ground arith;
  port_at_most = ground arith;
  database_given = ground (arith, eq_iff "testdb" "");
  username_given = ground (arith, eq_iff "root" "");
  connections = ground arith;
}

-- The configuration comes through YAML as one that `validateConfig` accepts.
pub server_config_accepted : validate_config default_validators (effective server_config) ≡ done
unfolding effective read_config write_config write_tables at read_auto_scaling
server_config_accepted =
    (validate_config_parts default_validators (effective server_config)).1
      (server_store, server_database, server_write_back, inl refl)

-- Its tables have a queue in memory.
pub memory_payments :
    (is_redis : Bool) (kafka : Done)
    → create_queue (effective server_config).write_back is_redis kafka
      ≡ ok (memory_queue (pos 10000))
unfolding effective read_config write_config write_tables at read_database read_tables
    read_write_back read_kafka read_auto_scaling create_queue
memory_payments is_redis kafka = refl
