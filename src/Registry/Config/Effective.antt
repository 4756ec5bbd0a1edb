-- ===== src/Registry/Config/Effective.antt =====
-- What `GetTableConfig` of internal/registry/config.go guarantees for an accepted configuration.
use shock_absorber.Prelude.{
  String, ℤ, pos, negsuc, ◌≡◌, false, Positive, is_zero, lookup, Option, none, some, arith, done,
  Bool-cases, inl, inr,
}
use shock_absorber.Registry.Config.{InternalConfig, InternalTableConfig, InternalWriteBackConfig}
use shock_absorber.Registry.Config.Tables.{or_default, get_table_config, merge_table_config}
use shock_absorber.Registry.Config.Validation.{validate_write_back}
use shock_absorber.Registry.Config.Validation.Sound.{IsValidWriteBack, validate_write_back_sound}

Positive-is_zero : (d : ℤ) → Positive d → is_zero d ≡ false
Positive-is_zero (pos n) h = ground arith
Positive-is_zero (negsuc n) h = absurd h

or_default-is_zero : (x d : ℤ) → Positive d → is_zero (or_default x d) ≡ false
or_default-is_zero x d h = elim (Bool-cases (is_zero x)) [
  | inl e ↦ rw e (Positive-is_zero d h)
  | inr e ↦ rw e e
]

merged_filled :
    (w : InternalWriteBackConfig) (o : Option InternalTableConfig)
    → IsValidWriteBack w
    → let t = merge_table_config w o in
      (is_zero t.ttl ≡ false)
      × (is_zero t.write_back_batch_size ≡ false)
      × (is_zero t.drain_rate ≡ false)
unfolding merge_table_config
merged_filled w none v = (
  Positive-is_zero w.default_ttl v.ttl_positive,
  Positive-is_zero w.batch_size v.batch_positive,
  Positive-is_zero w.drain_rate v.rate_positive,
)
merged_filled w (some t) v = (
  or_default-is_zero t.ttl w.default_ttl v.ttl_positive,
  or_default-is_zero t.write_back_batch_size w.batch_size v.batch_positive,
  or_default-is_zero t.drain_rate w.drain_rate v.rate_positive,
)

-- With write-back settings that `validateConfig` accepts, the settings that `GetTableConfig` returns
-- for a table, listed or not, have no zero time-to-live, batch size or drain rate.
pub get_table_config_filled :
    (config : InternalConfig) (name : String)
    → validate_write_back config.write_back ≡ done
    → let t = get_table_config config name in
      (is_zero t.ttl ≡ false)
      × (is_zero t.write_back_batch_size ≡ false)
      × (is_zero t.drain_rate ≡ false)
unfolding get_table_config
get_table_config_filled config name h =
    merged_filled config.write_back (lookup name config.tables)
      (validate_write_back_sound config.write_back h)
