-- ===== src/Settings/Default.antt =====
-- `DefaultConfig` of pkg/shockabsorber/config.go; a field that it leaves out has Go's zero value.
use shock_absorber.Prelude.{whole, ◌*◌, pos, negsuc, false, [], ◌∷◌}
use shock_absorber.Registry.Config.Defaults.{second}
use shock_absorber.Settings.{Config, KafkaConfig}

abbrev kafka : KafkaConfig
kafka = record {
  brokers = "localhost:9092" ∷ [];
  topic = "shock-absorber-writeback";
  group_id = "shock-absorber-writeback";
  batch_size = pos 100;
  batch_timeout = pos 10000000;
  write_timeout = pos (10 * second);
  read_timeout = pos (10 * second);
  required_acks = negsuc 0;
  max_message_bytes = pos 1000000;
  min_bytes = pos 1;
  max_bytes = pos (10 * 1024 * 1024);
  max_wait = pos 100000000;
}

abbrev pub default_config : Config
default_config = record {
  kv_store = record {
    type = "redis";
    redis_config = record {
      endpoints = "localhost:6379" ∷ [];
      cluster_mode = false;
      password = "";
      db = pos 0;
      pool_size = pos 10;
      min_idle_conns = pos 5;
    };
    dynamo_db_config = record {
      region = "";
      table_name = "";
      endpoint = "";
      access_key_id = "";
      secret_access_key = "";
    };
    cassandra_config = record {
      hosts = [];
      keyspace = "";
      consistency_level = "";
      username = "";
      password = "";
    };
    max_retries = pos 3;
    dial_timeout = pos (5 * second);
    read_timeout = pos (3 * second);
    write_timeout = pos (3 * second);
  };
  database = record {
    type = "mysql";
    host = "localhost";
    port = pos 3306;
    database = "";
    username = "";
    password = "";
    ssl_mode = "";
    max_open_conns = pos 25;
    max_idle_conns = pos 5;
    conn_max_lifetime = pos (300 * second);
    conn_max_idle_time = pos (600 * second);
    connection_timeout = pos (10 * second);
  };
  tables = [];
  write_back = record {
    batch_size = pos 100;
    drain_rate = pos 50;
    max_retries = pos 5;
    retry_backoff_base = pos (1 * second);
    retry_backoff_max = pos (30 * second);
    default_ttl = pos (3600 * second);
    queue_type = "memory";
    queue_buffer_size = pos 10000;
    kafka_config = kafka;
  };
  auto_scaling = record {
    enabled = false;
    min_drainers = pos 1;
    max_drainers = pos 10;
    cpu_threshold_high = whole 80;
    cpu_threshold_low = whole 30;
    scale_up_cooldown = pos (60 * second);
    scale_down_cooldown = pos (300 * second);
    monitoring_interval = pos (10 * second);
  };
}
