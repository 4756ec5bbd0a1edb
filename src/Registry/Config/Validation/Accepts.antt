-- ===== src/Registry/Config/Validation/Accepts.antt =====
-- Which configurations `validateConfig` of internal/registry/config.go accepts.
use shock_absorber.Prelude.{◌≡◌, ◌↔◌, refl, Done, done, ok, err, and_then}
use shock_absorber.Registry.Config.{InternalConfig}
use shock_absorber.Registry.Config.Validation.{
  ValidatorRegistry, validate_kv_store, validate_config, default_validators,
}
use shock_absorber.Registry.Config.Validation.Stores.{IsValidKvStore, validate_kv_store_iff}
use shock_absorber.Registry.Config.Validation.Sound.{
  IsValidDatabase, IsValidWriteBack, IsValidAutoScaling, validate_database_sound,
  validate_database_complete, validate_write_back_sound, validate_write_back_complete,
  validate_auto_scaling_iff,
}

and_then_iff : (m n : Done) → (and_then m (λ _. n) ≡ done) ↔ ((m ≡ done) × (n ≡ done))
and_then_iff (ok tt) n = (λ h. (refl, h), λ h. h.1)
and_then_iff (err e) n = (λ h. cc, λ h. cc (h.0))

-- `validateConfig` part by part, for any registry of validators.
pub validate_config_parts :
    (registry : ValidatorRegistry) (c : InternalConfig)
    → (validate_config registry c ≡ done) ↔ (
        (validate_kv_store registry c ≡ done)
        × IsValidDatabase c.database
        × IsValidWriteBack c.write_back
        × IsValidAutoScaling c.auto_scaling)
unfolding validate_config
validate_config_parts registry c = (accepted, accepts)
  where
    accepted :
        validate_config registry c ≡ done
        → (validate_kv_store registry c ≡ done)
          × IsValidDatabase c.database
          × IsValidWriteBack c.write_back
          × IsValidAutoScaling c.auto_scaling
    accepted h =
        let (kv, h₁) = (and_then_iff _ _).0 h in
        let (db, h₂) = (and_then_iff _ _).0 h₁ in
        let (wb, h₃) = (and_then_iff _ _).0 h₂ in
        (
          kv,
          validate_database_sound c.database db,
          validate_write_back_sound c.write_back wb,
          (validate_auto_scaling_iff c.auto_scaling).0 h₃,
        )

    accepts :
        (validate_kv_store registry c ≡ done)
          × IsValidDatabase c.database
          × IsValidWriteBack c.write_back
          × IsValidAutoScaling c.auto_scaling
        → validate_config registry c ≡ done
    accepts (kv, db, wb, sc) = (and_then_iff _ _).1 (
      kv,
      (and_then_iff _ _).1 (
        validate_database_complete c.database db,
        (and_then_iff _ _).1 (
          validate_write_back_complete c.write_back wb,
          (validate_auto_scaling_iff c.auto_scaling).1 sc,
        ),
      ),
    )

-- With the validators of the two registered backends, `validateConfig` accepts a configuration
-- exactly when: its KV store is "redis", with endpoints, a database from 0 to 15, a positive pool and
-- no negative idle count, or "dynamodb", with a region and a table, and in both cases has positive
-- timeouts and no negative number of retries; its database, write-back and Kafka settings are in
-- range; and, where auto-scaling is enabled, its drainers and interval are in range, each CPU
-- threshold is NaN or over 0 and at most 100, and the low one is below the high one or one of the
-- two is NaN.
pub validate_config_iff :
    (c : InternalConfig)
    → (validate_config default_validators c ≡ done) ↔ (
        IsValidKvStore c
        × IsValidDatabase c.database
        × IsValidWriteBack c.write_back
        × IsValidAutoScaling c.auto_scaling)
validate_config_iff c = (
  λ h.
      let (kv, db, wb, sc) = (validate_config_parts default_validators c).0 h in
      ((validate_kv_store_iff c).0 kv, db, wb, sc),
  λ (kv, db, wb, sc).
      (validate_config_parts default_validators c).1 ((validate_kv_store_iff c).1 kv, db, wb, sc),
)
