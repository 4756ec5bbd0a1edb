-- ===== src/Backend/Created.antt =====
-- internal/kvstore/factory.go: the stores that `Create` returns.
use shock_absorber.Prelude.{
  String, ◌≡◌, [], ◌∷◌, Error, insert, sym, ap, ◌∙◌, cons-eq_some, ◌⊎◌, inl, inr, refl, Bool, false,
  List, All, Option, none, some, Map, lookup, first_error_iff, and_then-eq_ok, wrap-eq_ok, Result,
  ok, done, ◌==◌, arith, Bool-cases, ok_injective,
}
use shock_absorber.Backend.Factory.{
  KvStoreConfig, KvStoreFactory, redis_config_checks, dynamo_config_checks, redis_factory,
  dynamo_factory, register_factory, create_with, create_store, init,
}

-- No check of a list finds fault.
abbrev pub Passed : List (Bool × Error) → Type 0
Passed checks = All (λ c. c.0 ≡ false) checks

lookup-nil : {K : Type 0} (key : String) (v : K) → lookup key [] ≡ some v → ⊥
unfolding lookup
lookup-nil key v h = cc

module _ {K : Type 0} (redis dynamo : KvStoreConfig → Result K) where
  -- The registry after both `init` functions.
  unfoldable pub registered : Map (KvStoreFactory K)
  registered = ("dynamodb", dynamo_factory dynamo) ∷ ("redis", redis_factory redis) ∷ []

  pub init-registered : init redis dynamo ≡ ok registered
  unfolding init register_factory registered redis_factory dynamo_factory lookup insert
  init-registered = refl

  create_with-found :
      (o : Option (KvStoreFactory K)) (c : KvStoreConfig) (k : K)
      → create_with o c ≡ ok k
      → (f : KvStoreFactory K) × (o ≡ some f) × (f.validate c ≡ done) × (f.create c ≡ ok k)
  unfolding create_with
  create_with-found none c k h = cc
  create_with-found (some f) c k h =
      let (_, valid, made) = and_then-eq_ok _ _ k h in
      (
        f,
        refl,
        wrap-eq_ok "invalid configuration for %s" (c.type ∷ []) (f.validate c) tt valid,
        made,
      )

  create_store-found :
      (m : Map (KvStoreFactory K)) (c : KvStoreConfig) (k : K)
      → create_store m c ≡ ok k
      → create_with (lookup c.type m) c ≡ ok k
  unfolding create_store
  create_store-found m c k h = elim (Bool-cases (c.type == "")) [
    | inl e ↦ absurd (ground arith)
    | inr e ↦ ground arith
  ]

  -- What the factory of a type checked and made.
  checked_dynamo :
      (f : KvStoreFactory K) (c : KvStoreConfig) (k : K)
      → dynamo_factory dynamo ≡ f
      → f.validate c ≡ done
      → f.create c ≡ ok k
      → Passed (dynamo_config_checks c) × (dynamo c ≡ ok k)
  unfolding dynamo_factory
  checked_dynamo f c k is valid made = (
    (first_error_iff (dynamo_config_checks c)).0 (ap (λ g. g.validate c) is ∙ valid),
    wrap-eq_ok "failed to create DynamoDB KV store" [] (dynamo c) k
        (ap (λ g. g.create c) is ∙ made),
  )

  checked_redis :
      (f : KvStoreFactory K) (c : KvStoreConfig) (k : K)
      → redis_factory redis ≡ f
      → f.validate c ≡ done
      → f.create c ≡ ok k
      → Passed (redis_config_checks c) × (redis c ≡ ok k)
  unfolding redis_factory
  checked_redis f c k is valid made = (
    (first_error_iff (redis_config_checks c)).0 (ap (λ g. g.validate c) is ∙ valid),
    wrap-eq_ok "failed to create Redis KV store" [] (redis c) k (ap (λ g. g.create c) is ∙ made),
  )

  lookup-registered :
      (type : String) (f : KvStoreFactory K)
      → lookup type registered ≡ some f
      → ((type ≡ "dynamodb") × (dynamo_factory dynamo ≡ f))
        ⊎ ((type ≡ "redis") × (redis_factory redis ≡ f))
  unfolding registered
  lookup-registered type f h = elim (cons-eq_some "dynamodb" type (dynamo_factory dynamo) f _ h) [
    | inl (e, is) ↦ inl (sym e, is)
    | inr later ↦ elim (cons-eq_some "redis" type (redis_factory redis) f [] later) [
      | inl (e, is) ↦ inr (sym e, is)
      | inr never ↦ absurd (lookup-nil type f never)
    ]
  ]

  -- A store that `Create` returns after both registrations is what the client of its type makes of
  -- the configuration, whose type is "dynamodb" or "redis" and which passed every check of that
  -- type's factory.
  pub created_is_checked :
      (m : Map (KvStoreFactory K)) (c : KvStoreConfig) (k : K)
      → init redis dynamo ≡ ok m
      → create_store m c ≡ ok k
      → ((c.type ≡ "dynamodb") × Passed (dynamo_config_checks c) × (dynamo c ≡ ok k))
        ⊎ ((c.type ≡ "redis") × Passed (redis_config_checks c) × (redis c ≡ ok k))
  created_is_checked m c k e h =
      let same = ok_injective registered m (sym init-registered ∙ e) in
      let (f, there, valid, made) =
        create_with-found (lookup c.type m) c k (create_store-found m c k h) in
      elim (lookup-registered c.type f (ap (lookup c.type) same ∙ there)) [
        | inl (type, is) ↦
            let (passed, came) = checked_dynamo f c k is valid made in inl (type, passed, came)
        | inr (type, is) ↦
            let (passed, came) = checked_redis f c k is valid made in inr (type, passed, came)
      ]
