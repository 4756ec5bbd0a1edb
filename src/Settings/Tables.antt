-- ===== src/Settings/Tables.antt =====
-- The settings of a table on both sides: those that `EnableKV` of pkg/shockabsorber/client.go gives
-- its drainer and its instance, and those that the registry keeps.
use shock_absorber.Prelude.{String, ◌≡◌, refl, ap, ◌∙◌, [], Option, none, some, lookup}
use mathlib.Core.Option
use shock_absorber.Registry.Config.{InternalWriteBackConfig}
use shock_absorber.Registry.Config.Tables.{or_default, merge_table_config, get_table_config}
use shock_absorber.Settings.{Config, TableConfig}
use shock_absorber.Settings.Read.{effective, read_config, read_write_back}
use shock_absorber.Settings.Yaml.{at, write_config}
use shock_absorber.Settings.Lost.{kept_table, effective-tables}
use shock_absorber.Client.Wrapper.{table_entry, filled, apply_options, table_settings}

-- What the registry makes of the settings of a table that came through.
merge-kept :
    (o : Option TableConfig) (w : InternalWriteBackConfig)
    → let kept = merge_table_config w (Option.map kept_table o) in
      let t = table_entry o in
      (kept.ttl ≡ or_default t.ttl w.default_ttl)
      × (kept.enabled ≡ t.enabled)
      × (kept.namespace ≡ t.namespace)
      × (kept.drain_rate ≡ w.drain_rate)
      × (kept.write_back_batch_size ≡ w.batch_size)
unfolding merge_table_config
merge-kept none w = (refl, refl, refl, refl, refl)
merge-kept (some t) w = (refl, refl, refl, refl, refl)

-- Once the public configuration has gone through YAML, the registry's settings of a table have the
-- time-to-live, the flag and the namespace that the public client starts from. Its rate and batch
-- size are the global ones, also where the table has its own, which the public client takes.
pub table_settings_differ :
    (c : Config) (name : String)
    → let given = table_settings c name [] in
      let kept = get_table_config (effective c) name in
      let t = table_entry (lookup name c.tables) in
      let w = c.write_back in
      (kept.ttl ≡ given.ttl)
      × (kept.enabled ≡ given.enabled)
      × (kept.namespace ≡ given.namespace)
      × (given.drain_rate ≡ or_default t.drain_rate w.drain_rate)
      × (kept.drain_rate ≡ w.drain_rate)
      × (given.write_back_batch_size ≡ or_default t.write_back_batch_size w.batch_size)
      × (kept.write_back_batch_size ≡ w.batch_size)
unfolding table_settings filled apply_options get_table_config effective read_config write_config at
    read_write_back
table_settings_differ c name =
    let w = (effective c).write_back in
    let o = lookup name c.tables in
    let (ttl, enabled, namespace, rate, size) = merge-kept o w in
    let kept : get_table_config (effective c) name
        ≡ merge_table_config w (Option.map kept_table o) =
      ap (merge_table_config w) (effective-tables c name) in
    (
      ap (λ k. k.ttl) kept ∙ ttl,
      ap (λ k. k.enabled) kept ∙ enabled,
      ap (λ k. k.namespace) kept ∙ namespace,
      refl,
      ap (λ k. k.drain_rate) kept ∙ rate,
      refl,
      ap (λ k. k.write_back_batch_size) kept ∙ size,
    )
