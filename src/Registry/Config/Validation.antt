-- ===== src/Registry/Config/Validation.antt =====
-- `validateConfig` of internal/registry/config.go, and the validators of internal/kvstore/redis.go
-- and dynamodb.go that it looks up by the type of the KV store.
mod Backends
pub mod Sound
pub mod Accepts
pub mod Stores
pub mod Registered
unfoldable pub use Backends.{no_elements, redis_validate, dynamo_db_validate}
use shock_absorber.Prelude.{
  String, Bool, true, false, ℤ, pos, not_positive, is_negative, le_ℤ, not, ◌||◌, ◌&&◌, List, [],
  ◌∷◌, Error, errorf, Done, done, first_error, ◌==◌, Map, lookup, Option, none, some, Result,
  and_then, wrap, whole, le_float, lt_float, if◌then◌else◌,
}
use shock_absorber.Registry.Config.{
  InternalConfig, InternalDatabaseConfig, InternalWriteBackConfig, InternalKafkaConfig,
  InternalAutoScalingConfig,
}

-- The registry of validators, by type.
abbrev pub ValidatorRegistry : Type 0
ValidatorRegistry = Map (InternalConfig → Done)

-- What the `init` functions of the two backends register.
unfoldable pub default_validators : ValidatorRegistry
default_validators = ("redis", redis_validate) ∷ ("dynamodb", dynamo_db_validate) ∷ []

unfoldable pub run_validator : Option (InternalConfig → Done) → InternalConfig → Done
run_validator none config =
    Result.err (errorf "unsupported KV store type: %s" (config.kv_store.type ∷ []))
run_validator (some validate) config = wrap "kvstore validation failed" [] (validate config)

unfoldable pub validate_kv_store : ValidatorRegistry → InternalConfig → Done
unfolding run_validator
validate_kv_store registry config =
    if config.kv_store.type == ""
    then Result.err (errorf "kvstore.type is required" [])
    else run_validator (lookup config.kv_store.type registry) config

abbrev database_checks : InternalDatabaseConfig → List (Bool × Error)
database_checks d =
    (d.type == "", errorf "database.type is required" [])
    ∷ (
      not (d.type == "mysql") && not (d.type == "postgresql"),
      errorf "database.type must be 'mysql' or 'postgresql'" [],
    )
    ∷ (d.host == "", errorf "database.host is required" [])
    ∷ (
      not_positive d.port || not (le_ℤ d.port (pos 65535)),
      errorf "database.port must be between 1 and 65535" [],
    )
    ∷ (d.database == "", errorf "database.database is required" [])
    ∷ (d.username == "", errorf "database.username is required" [])
    ∷ (not_positive d.max_open_conns, errorf "database.max_open_conns must be greater than 0" [])
    ∷ []

abbrev write_back_checks : InternalWriteBackConfig → List (Bool × Error)
write_back_checks w =
    (not_positive w.batch_size, errorf "writeback.batch_size must be greater than 0" [])
    ∷ (not_positive w.drain_rate, errorf "writeback.drain_rate must be greater than 0" [])
    ∷ (is_negative w.max_retries, errorf "writeback.max_retries must be non-negative" [])
    ∷ (not_positive w.default_ttl, errorf "writeback.default_ttl must be greater than 0" [])
    ∷ (
      not (w.queue_type == "")
          && (not (w.queue_type == "memory")
              && (not (w.queue_type == "redis") && not (w.queue_type == "kafka"))),
      errorf "writeback.queue_type must be 'memory', 'redis', or 'kafka'" [],
    )
    ∷ (
      w.queue_type == "kafka" && no_elements w.kafka_config.brokers,
      errorf "kafka_config.brokers is required when queue_type is 'kafka'" [],
    )
    ∷ (
      w.queue_type == "kafka" && w.kafka_config.topic == "",
      errorf "kafka_config.topic is required when queue_type is 'kafka'" [],
    )
    ∷ []

abbrev auto_scaling_checks : InternalAutoScalingConfig → List (Bool × Error)
auto_scaling_checks a =
    (not_positive a.min_drainers, errorf "autoscaling.min_drainers must be greater than 0" [])
    ∷ (
      not (le_ℤ a.min_drainers a.max_drainers),
      errorf "autoscaling.max_drainers must be >= autoscaling.min_drainers" [],
    )
    ∷ (
      le_float a.cpu_threshold_high (whole 0) || lt_float (whole 100) a.cpu_threshold_high,
      errorf "autoscaling.cpu_threshold_high must be between 0 and 100" [],
    )
    ∷ (
      le_float a.cpu_threshold_low (whole 0) || lt_float (whole 100) a.cpu_threshold_low,
      errorf "autoscaling.cpu_threshold_low must be between 0 and 100" [],
    )
    ∷ (
      le_float a.cpu_threshold_high a.cpu_threshold_low,
      errorf "autoscaling.cpu_threshold_low must be < autoscaling.cpu_threshold_high" [],
    )
    ∷ (
      not_positive a.monitoring_interval,
      errorf "autoscaling.monitoring_interval must be greater than 0" [],
    )
    ∷ []

pub validate_database : InternalDatabaseConfig → Done
validate_database d = first_error (database_checks d)

unfoldable pub validate_write_back : InternalWriteBackConfig → Done
validate_write_back w = first_error (write_back_checks w)

pub validate_auto_scaling : InternalAutoScalingConfig → Done
validate_auto_scaling a = if a.enabled then first_error (auto_scaling_checks a) else done

pub validate_config : ValidatorRegistry → InternalConfig → Done
validate_config registry config = and_then (validate_kv_store registry config) λ _.
    and_then (validate_database config.database) λ _.
      and_then (validate_write_back config.write_back)
        λ _. validate_auto_scaling config.auto_scaling
