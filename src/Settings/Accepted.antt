-- ===== src/Settings/Accepted.antt =====
-- `DefaultConfig` of pkg/shockabsorber/config.go, and what `validateConfig` of internal/registry
-- makes of it.
use shock_absorber.Prelude.{
  String, ◌≡◌, ◌≢◌, ◌↔◌, refl, done, lookup, inl, arith, eq_iff, sym, subst,
}
use shock_absorber.Registry.Config.{InternalConfig}
use shock_absorber.Registry.Config.Defaults.{default_internal_config}
use shock_absorber.Registry.Config.Validation.{
  validate_config, validate_kv_store, default_validators, run_validator, redis_validate,
  validate_write_back,
}
use shock_absorber.Registry.Config.Validation.Sound.{
  IsValidDatabase, IsValidWriteBack, validate_write_back_sound,
}
use shock_absorber.Registry.Config.Validation.Accepts.{validate_config_parts}
use shock_absorber.Settings.{Config}
use shock_absorber.Settings.Default.{default_config}
use shock_absorber.Settings.Yaml.{at, write_config, write_tables}
use shock_absorber.Settings.Read.{
  effective, read_config, read_kv_store, read_redis, read_database, read_tables, read_write_back,
  read_kafka, read_auto_scaling,
}

-- The default configuration with a database and a user.
abbrev pub default_for : String → String → Config
default_for database username = record default_config {
  database = record default_config.database { database = database; username = username };
}

-- The defaults of the two packages are the same.
abbrev internal_for : String → String → InternalConfig
internal_for database username = record default_internal_config {
  database = record default_internal_config.database { database = database; username = username };
}

effective-default_for :
    (database username : String)
    → effective (default_for database username) ≡ internal_for database username
unfolding effective read_config write_config write_tables at read_kv_store read_redis read_database
    read_tables read_write_back read_kafka read_auto_scaling
effective-default_for database username = refl

default_store :
    (database username : String)
    → validate_kv_store default_validators (internal_for database username) ≡ done
unfolding validate_kv_store run_validator default_validators redis_validate lookup
default_store database username = refl

default_write_back : IsValidWriteBack default_internal_config.write_back
unfolding validate_write_back
default_write_back = validate_write_back_sound default_internal_config.write_back refl

default_database :
    (database username : String)
    → database ≢ ""
    → username ≢ ""
    → IsValidDatabase (internal_for database username).database
default_database database username d u = record {
  type_known = inl refl;
  host_given = ground (arith, eq_iff "localhost" "");
  port_positive = ground arith;
  port_at_most = ground arith;
  database_given = d;
  username_given = u;
  connections = ground arith;
}

accepted_iff :
    (database username : String)
    → (validate_config default_validators (internal_for database username) ≡ done)
      ↔ ((database ≢ "") × (username ≢ ""))
accepted_iff database username =
    let (sound, complete) =
      validate_config_parts default_validators (internal_for database username) in
    (
      λ h. let (_, valid, _, _) = sound h in (valid.database_given, valid.username_given),
      λ (d, u). complete (
        default_store database username,
        default_database database username d u,
        default_write_back,
        inl refl,
      ),
    )

-- With a database and a user, `DefaultConfig` comes through YAML as a configuration that
-- `validateConfig` accepts; without either it does not.
pub default_config_accepted :
    (database username : String)
    → (validate_config default_validators (effective (default_for database username)) ≡ done)
      ↔ ((database ≢ "") × (username ≢ ""))
default_config_accepted database username =
    subst (λ e. (validate_config default_validators e ≡ done) ↔ ((database ≢ "") × (username ≢ "")))
      (sym (effective-default_for database username)) (accepted_iff database username)
