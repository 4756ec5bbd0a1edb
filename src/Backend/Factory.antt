-- ===== src/Backend/Factory.antt =====
-- internal/kvstore/factory.go, and the two factories of redis.go and dynamodb.go. The registry is a
-- global map behind a lock that each call holds; a panic is an error of `register_factory`.
use shock_absorber.Prelude.{
  String, ℤ, pos, Bool, not, ◌||◌, List, [], ◌∷◌, map, Option, none, some, is_some, Map, lookup,
  insert, not_positive, is_negative, le_ℤ, Error, errorf, wrap, and_then, first_error, Result, ok,
  err, Done, if◌then◌else◌, ◌==◌,
}
use shock_absorber.Registry.Config.Validation.{no_elements}

-- `KVStoreConfig`
pub record KvStoreConfig : Type 0 where
  pub type : String
  pub endpoints : List String
  pub cluster_mode : Bool
  pub password : String
  pub db : ℤ
  pub max_retries : ℤ
  pub pool_size : ℤ
  pub min_idle_conns : ℤ
  pub dial_timeout : ℤ
  pub read_timeout : ℤ
  pub write_timeout : ℤ
  pub region : String
  pub table_name : String
  pub endpoint : String
  pub access_key_id : String
  pub secret_access_key : String

-- `KVStoreFactory`; `K` is a store, and `create` stands for what the client library makes of the
-- configuration.
pub record KvStoreFactory (K : Type 0) : Type 0 where
  pub type : String
  pub validate : KvStoreConfig → Done
  pub create : KvStoreConfig → Result K

abbrev pub redis_config_checks : KvStoreConfig → List (Bool × Error)
redis_config_checks c =
    (not (c.type == "redis"), errorf "invalid type for Redis factory: %s" (c.type ∷ []))
    ∷ (no_elements c.endpoints, errorf "at least one endpoint is required for Redis" [])
    ∷ (
      is_negative c.db || not (le_ℤ c.db (pos 15)),
      errorf "Redis DB must be between 0 and 15, got: %d" [],
    )
    ∷ (not_positive c.pool_size, errorf "pool_size must be greater than 0, got: %d" [])
    ∷ (is_negative c.min_idle_conns, errorf "min_idle_conns must be non-negative, got: %d" [])
    ∷ (not_positive c.dial_timeout, errorf "dial_timeout must be greater than 0, got: %d" [])
    ∷ (not_positive c.read_timeout, errorf "read_timeout must be greater than 0, got: %d" [])
    ∷ (not_positive c.write_timeout, errorf "write_timeout must be greater than 0, got: %d" [])
    ∷ []

-- `RedisKVStoreFactory`
unfoldable pub redis_factory : {K : Type 0} → (KvStoreConfig → Result K) → KvStoreFactory K
redis_factory create = record {
  type = "redis";
  validate = λ c. first_error (redis_config_checks c);
  create = λ c. wrap "failed to create Redis KV store" [] (create c);
}

abbrev pub dynamo_config_checks : KvStoreConfig → List (Bool × Error)
dynamo_config_checks c =
    (not (c.type == "dynamodb"), errorf "invalid type for DynamoDB factory: %s" (c.type ∷ []))
    ∷ (c.region == "", errorf "region is required for DynamoDB" [])
    ∷ (c.table_name == "", errorf "table_name is required for DynamoDB" [])
    ∷ []

-- `DynamoDBKVStoreFactory`
unfoldable pub dynamo_factory : {K : Type 0} → (KvStoreConfig → Result K) → KvStoreFactory K
dynamo_factory create = record {
  type = "dynamodb";
  validate = λ c. first_error (dynamo_config_checks c);
  create = λ c. wrap "failed to create DynamoDB KV store" [] (create c);
}

module _ {K : Type 0} where
  -- `RegisterFactory`; a factory that may be nil is an `Option`.
  unfoldable pub register_factory :
      Option (KvStoreFactory K) → Map (KvStoreFactory K) → Result (Map (KvStoreFactory K))
  register_factory none m = err (errorf "factory cannot be nil" [])
  register_factory (some f) m =
      if f.type == ""
      then err (errorf "factory type cannot be empty" [])
      else if is_some (lookup f.type m)
      then err (errorf "factory for type %q is already registered" (f.type ∷ []))
      else ok (insert f.type f m)

  unfoldable pub create_with : Option (KvStoreFactory K) → KvStoreConfig → Result K
  create_with none c = err (errorf "unsupported KV store type: %s" (c.type ∷ []))
  create_with (some f) c =
      and_then (wrap "invalid configuration for %s" (c.type ∷ []) (f.validate c)) λ _. f.create c

  -- `Create`
  unfoldable pub create_store : Map (KvStoreFactory K) → KvStoreConfig → Result K
  unfolding create_with
  create_store m c =
      if c.type == ""
      then err (errorf "kvstore type is required" [])
      else create_with (lookup c.type m) c

  -- `GetRegisteredTypes`
  abbrev pub get_registered_types : Map (KvStoreFactory K) → List String
  get_registered_types m = map (λ e. e.0) m

  -- `IsTypeRegistered`
  abbrev pub is_type_registered : String → Map (KvStoreFactory K) → Bool
  is_type_registered type m = is_some (lookup type m)

  -- The registrations of the two `init` functions, in the order of the files' names.
  unfoldable pub init :
      (KvStoreConfig → Result K) → (KvStoreConfig → Result K) → Result (Map (KvStoreFactory K))
  unfolding register_factory redis_factory dynamo_factory
  init redis dynamo =
      and_then (register_factory (some (dynamo_factory dynamo)) [])
        λ m. register_factory (some (redis_factory redis)) m
