-- ===== src/Registry/Config/Validation/Backends.antt =====
-- `RedisConfigValidator.Validate` of internal/kvstore/redis.go and
-- `DynamoDBConfigValidator.Validate` of internal/kvstore/dynamodb.go.
use shock_absorber.Prelude.{
  String, Bool, true, false, pos, not_positive, is_negative, le_ℤ, not, ◌||◌, List, [], ◌∷◌, Error,
  errorf, Done, first_error, ◌==◌,
}
use shock_absorber.Registry.Config.{InternalConfig, InternalKvStoreConfig, InternalRedisConfig}

abbrev pub no_elements : List String → Bool
no_elements [] = true
no_elements (x ∷ xs) = false

-- The tests on the timeouts and the retries, which both validators make.
abbrev pub common_checks : InternalKvStoreConfig → List (Bool × Error)
common_checks kv =
    (not_positive kv.dial_timeout, errorf "dial_timeout must be greater than 0, got: %v" [])
    ∷ (not_positive kv.read_timeout, errorf "read_timeout must be greater than 0, got: %v" [])
    ∷ (not_positive kv.write_timeout, errorf "write_timeout must be greater than 0, got: %v" [])
    ∷ (is_negative kv.max_retries, errorf "max_retries must be non-negative, got: %d" [])
    ∷ []

abbrev pub redis_checks : InternalKvStoreConfig → InternalRedisConfig → List (Bool × Error)
redis_checks kv r =
    (not (kv.type == "redis"), errorf "invalid type for Redis validator: %s" (kv.type ∷ []))
    ∷ (no_elements r.endpoints, errorf "at least one endpoint is required for Redis" [])
    ∷ (
      is_negative r.db || not (le_ℤ r.db (pos 15)),
      errorf "Redis DB must be between 0 and 15, got: %d" [],
    )
    ∷ (not_positive r.pool_size, errorf "pool_size must be greater than 0, got: %d" [])
    ∷ (is_negative r.min_idle_conns, errorf "min_idle_conns must be non-negative, got: %d" [])
    ∷ common_checks kv

unfoldable pub redis_validate : InternalConfig → Done
redis_validate config = first_error (redis_checks config.kv_store config.kv_store.redis_config)

abbrev pub dynamo_db_checks : InternalKvStoreConfig → List (Bool × Error)
dynamo_db_checks kv =
    (not (kv.type == "dynamodb"), errorf "invalid type for DynamoDB validator: %s" (kv.type ∷ []))
    ∷ (kv.dynamo_db_config.region == "", errorf "region is required for DynamoDB" [])
    ∷ (kv.dynamo_db_config.table_name == "", errorf "table_name is required for DynamoDB" [])
    ∷ common_checks kv

unfoldable pub dynamo_db_validate : InternalConfig → Done
dynamo_db_validate config = first_error (dynamo_db_checks config.kv_store)
