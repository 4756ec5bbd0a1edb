-- ===== src/Client/Convert.antt =====
-- `convertToKVStoreConfig` of internal/client/client.go, between the validators of `validateConfig`
-- and the factories of internal/kvstore.
use shock_absorber.Prelude.{
  String, ◌≡◌, ◌⊎◌, inl, inr, refl, ap, ◌∙◌, pos, false, [], first_error_iff, lookup, Map, some,
  wrap, Result, done, if◌then◌else◌, ◌==◌, eq_iff, arith,
}
use shock_absorber.Registry.Config.{InternalConfig, InternalKvStoreConfig}
use shock_absorber.Registry.Config.Validation.{validate_kv_store, default_validators}
use shock_absorber.Registry.Config.Validation.Stores.{
  redis_passed, dynamo_db_passed, validate_kv_store-IsTimed,
}
use shock_absorber.Backend.Factory.{
  KvStoreConfig, KvStoreFactory, redis_config_checks, dynamo_config_checks, redis_factory,
  dynamo_factory, create_with, create_store,
}
use shock_absorber.Backend.Created.{Passed, registered}

-- The settings of every type; the others are Go's zero values.
abbrev common_config : InternalKvStoreConfig → KvStoreConfig
common_config c = record {
  type = c.type;
  endpoints = [];
  cluster_mode = false;
  password = "";
  db = pos 0;
  max_retries = c.max_retries;
  pool_size = pos 0;
  min_idle_conns = pos 0;
  dial_timeout = c.dial_timeout;
  read_timeout = c.read_timeout;
  write_timeout = c.write_timeout;
  region = "";
  table_name = "";
  endpoint = "";
  access_key_id = "";
  secret_access_key = "";
}

abbrev with_redis : InternalKvStoreConfig → KvStoreConfig
with_redis c = record (common_config c) {
  endpoints = c.redis_config.endpoints;
  cluster_mode = c.redis_config.cluster_mode;
  password = c.redis_config.password;
  db = c.redis_config.db;
  pool_size = c.redis_config.pool_size;
  min_idle_conns = c.redis_config.min_idle_conns;
}

abbrev with_dynamo_db : InternalKvStoreConfig → KvStoreConfig
with_dynamo_db c = record (common_config c) {
  region = c.dynamo_db_config.region;
  table_name = c.dynamo_db_config.table_name;
  endpoint = c.dynamo_db_config.endpoint;
  access_key_id = c.dynamo_db_config.access_key_id;
  secret_access_key = c.dynamo_db_config.secret_access_key;
}

-- `convertToKVStoreConfig`
unfoldable pub convert_to_kv_store_config : InternalKvStoreConfig → KvStoreConfig
convert_to_kv_store_config c =
    if c.type == "redis"
    then with_redis c
    else if c.type == "dynamodb"
    then with_dynamo_db c
    else common_config c

convert-redis :
    (c : InternalKvStoreConfig) → c.type ≡ "redis" → convert_to_kv_store_config c ≡ with_redis c
unfolding convert_to_kv_store_config
convert-redis c e = ground (arith, eq_iff c.type "redis")

convert-dynamo_db :
    (c : InternalKvStoreConfig)
    → c.type ≡ "dynamodb"
    → convert_to_kv_store_config c ≡ with_dynamo_db c
unfolding convert_to_kv_store_config
convert-dynamo_db c e =
    ground (arith, eq_iff c.type "redis", eq_iff c.type "dynamodb", eq_iff "redis" "dynamodb")

module _ {K : Type 0} (redis dynamo : KvStoreConfig → Result K) where
  created_by_factory :
      (m : Map (KvStoreFactory K)) (f : KvStoreFactory K) (c : KvStoreConfig)
      → c.type == "" ≡ false
      → lookup c.type m ≡ some f
      → f.validate c ≡ done
      → create_store m c ≡ f.create c
  unfolding create_store create_with
  created_by_factory m f c named there valid = rw (named, there, valid) refl

  named : (type known : String) → type ≡ known → known == "" ≡ false → type == "" ≡ false
  named type known e h = ap (λ s. s == "") e ∙ h

  lookup-redis : lookup "redis" (registered redis dynamo) ≡ some (redis_factory redis)
  unfolding registered lookup
  lookup-redis = refl

  lookup-dynamo_db : lookup "dynamodb" (registered redis dynamo) ≡ some (dynamo_factory dynamo)
  unfolding registered lookup
  lookup-dynamo_db = refl

  create-redis :
      (c : KvStoreConfig)
      → c.type ≡ "redis"
      → Passed (redis_config_checks c)
      → create_store (registered redis dynamo) c
        ≡ wrap "failed to create Redis KV store" [] (redis c)
  unfolding redis_factory
  create-redis c e passed =
      created_by_factory (registered redis dynamo) (redis_factory redis) c
        (named c.type "redis" e refl)
        (ap (λ type. lookup type (registered redis dynamo)) e ∙ lookup-redis)
        ((first_error_iff (redis_config_checks c)).1 passed)

  create-dynamo_db :
      (c : KvStoreConfig)
      → c.type ≡ "dynamodb"
      → Passed (dynamo_config_checks c)
      → create_store (registered redis dynamo) c
        ≡ wrap "failed to create DynamoDB KV store" [] (dynamo c)
  unfolding dynamo_factory
  create-dynamo_db c e passed =
      created_by_factory (registered redis dynamo) (dynamo_factory dynamo) c
        (named c.type "dynamodb" e refl)
        (ap (λ type. lookup type (registered redis dynamo)) e ∙ lookup-dynamo_db)
        ((first_error_iff (dynamo_config_checks c)).1 passed)

  -- The settings of a KV store that `validateConfig` accepts pass the factory of their type when the
  -- client has converted them: what `Create` returns for them after both registrations is what the
  -- client library of that type makes of the converted settings, its error wrapped.
  pub accepted_settings_create :
      (c : InternalConfig)
      → validate_kv_store default_validators c ≡ done
      → let k = convert_to_kv_store_config c.kv_store in
        let created = create_store (registered redis dynamo) k in
        ((k.type ≡ "redis") × (created ≡ wrap "failed to create Redis KV store" [] (redis k)))
        ⊎ ((k.type ≡ "dynamodb")
            × (created ≡ wrap "failed to create DynamoDB KV store" [] (dynamo k)))
  accepted_settings_create c h = elim ((validate_kv_store-IsTimed c h).0) [
    | inl (e, valid) ↦
        let (a, (b, (d, (p, (m, (dial, (reads, (writes, _)))))))) = redis_passed c valid in
        rw (convert-redis c.kv_store e) (
          inl (
            e,
            create-redis (with_redis c.kv_store) e
                (a, (b, (d, (p, (m, (dial, (reads, (writes, tt)))))))),
          ))
    | inr (e, valid) ↦
        let (a, (region, (table, _))) = dynamo_db_passed c valid in
        rw (convert-dynamo_db c.kv_store e)
          (inr (e, create-dynamo_db (with_dynamo_db c.kv_store) e (a, (region, (table, tt)))))
  ]
