-- ===== src/Registry/Config/Validation/Stores.antt =====
-- What the validators that internal/kvstore registers accept, looked up as `validateConfig` does.
use shock_absorber.Prelude.{
  ◌≡◌, ◌≢◌, ◌⊎◌, ◌↔◌, false, pos, AtMost, le_ℤ, le_ℤ_iff, is_negative, not, ◌||◌, ◌==◌, ℤ, [],
  String, ap, Positive, NonNegative, not_positive_iff, is_negative_iff, done, arith, eq_iff, lookup,
  first_error_iff, All, inl, inr,
}
use shock_absorber.Registry.Config.{InternalConfig}
use shock_absorber.Registry.Config.Validation.{
  validate_kv_store, default_validators, run_validator, redis_validate, dynamo_db_validate,
}
use shock_absorber.Registry.Config.Validation.Backends.{
  common_checks, redis_checks, dynamo_db_checks,
}
use shock_absorber.Registry.Config.Validation.Sound.{some_element, no_element, given}

pub record IsTimed (c : InternalConfig) : Type 0 where
  pub dial : Positive c.kv_store.dial_timeout
  pub reads : Positive c.kv_store.read_timeout
  pub writes : Positive c.kv_store.write_timeout
  pub retries : NonNegative c.kv_store.max_retries

common-IsTimed :
    (c : InternalConfig) → All (λ x. x.0 ≡ false) (common_checks c.kv_store) → IsTimed c
common-IsTimed c h = record {
  dial = (not_positive_iff c.kv_store.dial_timeout).0 h.0;
  reads = (not_positive_iff c.kv_store.read_timeout).0 h.1.0;
  writes = (not_positive_iff c.kv_store.write_timeout).0 h.1.1.0;
  retries = (is_negative_iff c.kv_store.max_retries).0 h.1.1.1.0;
}

found :
    (c : InternalConfig)
    → validate_kv_store default_validators c ≡ done
    → ((c.kv_store.type ≡ "redis") × (redis_validate c ≡ done))
      ⊎ ((c.kv_store.type ≡ "dynamodb") × (dynamo_db_validate c ≡ done))
unfolding validate_kv_store run_validator default_validators lookup
found c h = ground (
  arith,
  eq_iff c.kv_store.type "",
  eq_iff "redis" c.kv_store.type,
  eq_iff "dynamodb" c.kv_store.type,
)

-- What the validators of the two types have checked.
pub redis_passed :
    (c : InternalConfig)
    → redis_validate c ≡ done
    → All (λ x. x.0 ≡ false) (redis_checks c.kv_store c.kv_store.redis_config)
unfolding redis_validate
redis_passed c h = (first_error_iff (redis_checks c.kv_store c.kv_store.redis_config)).0 h

pub dynamo_db_passed :
    (c : InternalConfig)
    → dynamo_db_validate c ≡ done
    → All (λ x. x.0 ≡ false) (dynamo_db_checks c.kv_store)
unfolding dynamo_db_validate
dynamo_db_passed c h = (first_error_iff (dynamo_db_checks c.kv_store)).0 h

redis-IsTimed : (c : InternalConfig) → redis_validate c ≡ done → IsTimed c
redis-IsTimed c h = common-IsTimed c (redis_passed c h).1.1.1.1.1

dynamo_db-IsTimed : (c : InternalConfig) → dynamo_db_validate c ≡ done → IsTimed c
dynamo_db-IsTimed c h = common-IsTimed c (dynamo_db_passed c h).1.1.1

pub record IsValidRedis (c : InternalConfig) : Type 0 where
  pub type_redis : c.kv_store.type ≡ "redis"
  pub endpoints_given : c.kv_store.redis_config.endpoints ≢ []
  pub db_nonnegative : NonNegative c.kv_store.redis_config.db
  pub db_at_most : AtMost c.kv_store.redis_config.db (pos 15)
  pub pool_positive : Positive c.kv_store.redis_config.pool_size
  pub idle_nonnegative : NonNegative c.kv_store.redis_config.min_idle_conns

pub record IsValidDynamoDb (c : InternalConfig) : Type 0 where
  pub type_dynamo_db : c.kv_store.type ≡ "dynamodb"
  pub region_given : c.kv_store.dynamo_db_config.region ≢ ""
  pub table_given : c.kv_store.dynamo_db_config.table_name ≢ ""

abbrev pub IsValidKvStore : InternalConfig → Type 0
IsValidKvStore c = (IsValidRedis c ⊎ IsValidDynamoDb c) × IsTimed c

is-eq : (s t : String) → s ≡ t → not (s == t) ≡ false
is-eq s t e = ap not ((eq_iff s t).1 e)

-- The test on the number of a Redis database.
db_in_range :
    (z : ℤ)
    → ((is_negative z || not (le_ℤ z (pos 15))) ≡ false) ↔ (NonNegative z × AtMost z (pos 15))
db_in_range z = (
  λ h. ground (arith, is_negative_iff z, le_ℤ_iff z (pos 15)),
  λ h. ground (arith, is_negative_iff z, le_ℤ_iff z (pos 15)),
)

common_complete :
    (c : InternalConfig) → IsTimed c → All (λ x. x.0 ≡ false) (common_checks c.kv_store)
common_complete c t = (
  (not_positive_iff c.kv_store.dial_timeout).1 t.dial,
  (
    (not_positive_iff c.kv_store.read_timeout).1 t.reads,
    (
      (not_positive_iff c.kv_store.write_timeout).1 t.writes,
      ((is_negative_iff c.kv_store.max_retries).1 t.retries, tt),
    ),
  ),
)

redis_sound :
    (c : InternalConfig) → c.kv_store.type ≡ "redis" → redis_validate c ≡ done → IsValidRedis c
redis_sound c e h =
    let cs = redis_passed c h in
    let r = c.kv_store.redis_config in
    record {
      type_redis = e;
      endpoints_given = no_element r.endpoints cs.1.0;
      db_nonnegative = ((db_in_range r.db).0 cs.1.1.0).0;
      db_at_most = ((db_in_range r.db).0 cs.1.1.0).1;
      pool_positive = (not_positive_iff r.pool_size).0 cs.1.1.1.0;
      idle_nonnegative = (is_negative_iff r.min_idle_conns).0 cs.1.1.1.1.0;
    }

redis_complete : (c : InternalConfig) → IsValidRedis c → IsTimed c → redis_validate c ≡ done
unfolding redis_validate
redis_complete c v t =
    let r = c.kv_store.redis_config in
    (first_error_iff (redis_checks c.kv_store r)).1 (
      is-eq c.kv_store.type "redis" v.type_redis,
      (
        some_element r.endpoints v.endpoints_given,
        (
          (db_in_range r.db).1 (v.db_nonnegative, v.db_at_most),
          (
            (not_positive_iff r.pool_size).1 v.pool_positive,
            ((is_negative_iff r.min_idle_conns).1 v.idle_nonnegative, common_complete c t),
          ),
        ),
      ),
    )

dynamo_db_sound :
    (c : InternalConfig)
    → c.kv_store.type ≡ "dynamodb"
    → dynamo_db_validate c ≡ done
    → IsValidDynamoDb c
dynamo_db_sound c e h =
    let cs = dynamo_db_passed c h in
    let d = c.kv_store.dynamo_db_config in
    record {
      type_dynamo_db = e;
      region_given = ground (arith, cs.1.0, eq_iff d.region "");
      table_given = ground (arith, cs.1.1.0, eq_iff d.table_name "");
    }

dynamo_db_complete :
    (c : InternalConfig) → IsValidDynamoDb c → IsTimed c → dynamo_db_validate c ≡ done
unfolding dynamo_db_validate
dynamo_db_complete c v t =
    let d = c.kv_store.dynamo_db_config in
    (first_error_iff (dynamo_db_checks c.kv_store)).1 (
      is-eq c.kv_store.type "dynamodb" v.type_dynamo_db,
      (given d.region v.region_given, (given d.table_name v.table_given, common_complete c t)),
    )

finds_redis :
    (c : InternalConfig)
    → c.kv_store.type ≡ "redis"
    → redis_validate c ≡ done
    → validate_kv_store default_validators c ≡ done
unfolding validate_kv_store run_validator default_validators lookup
finds_redis c e h =
    grind (arith, eq_iff c.kv_store.type "", eq_iff "redis" "", eq_iff "redis" c.kv_store.type)

finds_dynamo_db :
    (c : InternalConfig)
    → c.kv_store.type ≡ "dynamodb"
    → dynamo_db_validate c ≡ done
    → validate_kv_store default_validators c ≡ done
unfolding validate_kv_store run_validator default_validators lookup
finds_dynamo_db c e h = grind (
  arith,
  eq_iff c.kv_store.type "",
  eq_iff "dynamodb" "",
  eq_iff "dynamodb" "redis",
  eq_iff "redis" c.kv_store.type,
  eq_iff "dynamodb" c.kv_store.type,
)

-- With the registered validators, `validateConfig` accepts the settings of a KV store exactly when
-- they are in range.
pub validate_kv_store_iff :
    (c : InternalConfig) → (validate_kv_store default_validators c ≡ done) ↔ IsValidKvStore c
validate_kv_store_iff c = (
  λ h. elim (found c h) [
    | inl (t, v) ↦ (inl (redis_sound c t v), redis-IsTimed c v)
    | inr (t, v) ↦ (inr (dynamo_db_sound c t v), dynamo_db-IsTimed c v)
  ],
  λ (v, t). elim v [
    | inl r ↦ finds_redis c r.type_redis (redis_complete c r t)
    | inr d ↦ finds_dynamo_db c d.type_dynamo_db (dynamo_db_complete c d t)
  ],
)

-- Of the registered validators, `validateConfig` accepts the settings of a KV store only if its type
-- is "redis" or "dynamodb" and the validator of that type accepts them; the three timeouts are
-- positive then, and the number of retries is not negative.
pub validate_kv_store-IsTimed :
    (c : InternalConfig)
    → validate_kv_store default_validators c ≡ done
    → (((c.kv_store.type ≡ "redis") × (redis_validate c ≡ done))
        ⊎ ((c.kv_store.type ≡ "dynamodb") × (dynamo_db_validate c ≡ done)))
      × IsTimed c
validate_kv_store-IsTimed c h = elim (found c h) [
  | inl (t, v) ↦ (inl (t, v), redis-IsTimed c v)
  | inr (t, v) ↦ (inr (t, v), dynamo_db-IsTimed c v)
]
