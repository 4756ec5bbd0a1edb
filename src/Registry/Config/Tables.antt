-- ===== src/Registry/Config/Tables.antt =====
-- `GetTableConfig` of internal/registry/config.go: a table's settings merged with the defaults.
use shock_absorber.Prelude.{String, ℤ, is_zero, false, lookup, Option, none, some, if◌then◌else◌}
use shock_absorber.Registry.Config.{InternalConfig, InternalTableConfig, InternalWriteBackConfig}

-- if x == 0 { x = default }
abbrev pub or_default : ℤ → ℤ → ℤ
or_default x d = if is_zero x then d else x

unfoldable pub merge_table_config :
    InternalWriteBackConfig → Option InternalTableConfig → InternalTableConfig
merge_table_config w none = record {
  ttl = w.default_ttl;
  write_back_batch_size = w.batch_size;
  drain_rate = w.drain_rate;
  enabled = false;
  namespace = "";
}
merge_table_config w (some t) = record t {
  ttl = or_default t.ttl w.default_ttl;
  write_back_batch_size = or_default t.write_back_batch_size w.batch_size;
  drain_rate = or_default t.drain_rate w.drain_rate;
}

unfoldable pub get_table_config : InternalConfig → String → InternalTableConfig
unfolding merge_table_config
get_table_config config name = merge_table_config config.write_back (lookup name config.tables)
