-- ===== src/Registry/Config/Validation/Registered.antt =====
-- `ValidationStrategyRegistry` of internal/registry/config.go: how validators come into the registry.
-- A panic is an error; a validator that may be nil is an `Option`.
use shock_absorber.Prelude.{
  String, ◌≡◌, ◌≢◌, refl, [], ◌∷◌, Option, none, some, is_some, lookup, insert, lookup-insert,
  errorf, Result, ok, err, Done, and_then, ◌==◌, if◌then◌else◌, arith, eq_iff,
}
use shock_absorber.Registry.Config.{InternalConfig}
use shock_absorber.Registry.Config.Validation.{
  ValidatorRegistry, default_validators, redis_validate, dynamo_db_validate,
}

record ConfigValidator : Type 0 where
  type : String
  validate : InternalConfig → Done

-- `Register`
register_validator : Option ConfigValidator → ValidatorRegistry → Result ValidatorRegistry
register_validator none m = err (errorf "validator cannot be nil" [])
register_validator (some v) m =
    if v.type == ""
    then err (errorf "validator type cannot be empty" [])
    else if is_some (lookup v.type m)
    then err (errorf "validator for type %q is already registered" (v.type ∷ []))
    else ok (insert v.type v.validate m)

-- What the `init` functions of the two backends do.
register_redis : ValidatorRegistry → Result ValidatorRegistry
unfolding register_validator
register_redis = register_validator (some (record { type = "redis"; validate = redis_validate }))

register_dynamo_db : ValidatorRegistry → Result ValidatorRegistry
unfolding register_validator
register_dynamo_db =
    register_validator (some (record { type = "dynamodb"; validate = dynamo_db_validate }))

-- A validator is registered under its type, which had none, and no other type is touched.
register_validator-lookup :
    (v : ConfigValidator) (m m' : ValidatorRegistry) (type : String)
    → register_validator (some v) m ≡ ok m'
    → (v.type ≢ "")
      × (lookup v.type m ≡ none)
      × (lookup type m' ≡ (if v.type == type then some v.validate else lookup type m))
unfolding register_validator
register_validator-lookup v m m' type h =
    ground (arith, lookup-insert v.type type v.validate m, eq_iff v.type "")

-- In whichever order the two backends are initialized, the registry finds the same validators.
either_order :
    (type : String)
    → (m : ValidatorRegistry) × (m' : ValidatorRegistry) × (and_then
          (register_redis [])
          register_dynamo_db
        ≡ ok m)
      × (and_then (register_dynamo_db []) register_redis ≡ ok m')
      × (lookup type m ≡ lookup type default_validators)
      × (lookup type m' ≡ lookup type default_validators)
unfolding register_redis register_dynamo_db register_validator lookup insert default_validators
either_order type = (
  _,
  _,
  refl,
  refl,
  refl,
  grind (arith, eq_iff "redis" type, eq_iff "dynamodb" type, eq_iff "redis" "dynamodb"),
)
