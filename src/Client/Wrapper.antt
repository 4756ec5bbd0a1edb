-- ===== src/Client/Wrapper.antt =====
-- pkg/shockabsorber/client.go: `clientWrapper`, the client with the drainers of its tables.
-- A method holds the lock throughout; `context_done` says that its context is done. `backends` is what the instance of a table gives its drainer: its queue, which is never nil,
-- and its executor. A drainer that a later one replaces in the map stays on the heap.
use shock_absorber.Prelude.{
  ℕ, String, ℤ, pos, Bool, true, false, List, [], ◌∷◌, ◌++◌, Option, some, none, Map, lookup,
  insert, erase, Result, ok, err, Error, Done, Exec, if◌then◌else◌,
}
use shock_absorber.Core.{Schema}
use shock_absorber.Registry.Config.Tables.{or_default}
use shock_absorber.Settings.{Config, TableConfig, WriteBackConfig}
use shock_absorber.Drainer.{DrainerConfig}
use shock_absorber.Drainer.Restart.{start}
use shock_absorber.Drainer.Manager.{
  Drainer, DrainerManager, new_drainer, new_drainer_manager, start_all, stop_all, remove_drainer,
}
use shock_absorber.Client.Ops.{ClientImpl}
use shock_absorber.Client.Ops as Ops

pub record ClientWrapper (E V : Type 0) : Type 0 where
  pub impl : ClientImpl E
  pub config : Config
  pub drainer_manager : DrainerManager V
  pub tables : Map ℕ
  pub started : Bool
  pub replaced : List (Drainer V)

abbrev pub TableOption : Type 0
TableOption = TableConfig → TableConfig

with_ttl : ℤ → TableOption
with_ttl ttl config = record config { ttl = ttl }

with_namespace : String → TableOption
with_namespace namespace config = record config { namespace = namespace }

with_write_back_batch_size : ℤ → TableOption
with_write_back_batch_size n config = record config { write_back_batch_size = n }

unfoldable pub with_drain_rate : ℤ → TableOption
with_drain_rate n config = record config { drain_rate = n }

-- cw.config.Tables[tableName], with the zero value of a missing key.
abbrev pub table_entry : Option TableConfig → TableConfig
table_entry (some t) = t
table_entry none = record {
  ttl = pos 0;
  write_back_batch_size = pos 0;
  drain_rate = pos 0;
  enabled = false;
  namespace = "";
}

unfoldable pub filled : WriteBackConfig → TableConfig → TableConfig
filled w t = record t {
  ttl = or_default t.ttl w.default_ttl;
  write_back_batch_size = or_default t.write_back_batch_size w.batch_size;
  drain_rate = or_default t.drain_rate w.drain_rate;
}

unfoldable pub apply_options : List TableOption → TableConfig → TableConfig
apply_options [] t = t
apply_options (opt ∷ opts) t = apply_options opts (opt t)

unfoldable pub table_settings : Config → String → List TableOption → TableConfig
unfolding filled apply_options
table_settings config name opts =
    apply_options opts (filled config.write_back (table_entry (lookup name config.tables)))

abbrev pub drainer_config : WriteBackConfig → ℤ → DrainerConfig
drainer_config w rate = record {
  drain_rate = rate;
  batch_size = pos 1;
  poll_interval = pos 100000000;
  max_retries = w.max_retries;
  retry_backoff = w.retry_backoff_base;
}

unfoldable pub to_list : {A : Type 0} → Option A → List A
to_list none = []
to_list (some x) = x ∷ []

module _ {V : Type 0} where
  -- The drainer of `EnableKV`, started if the client is, with the context of the call.
  unfoldable pub table_drainer : Bool → String → V → DrainerConfig → Bool → Drainer V
  table_drainer context_done name backends config started =
      let d : Drainer V = new_drainer name backends config in
      if started then record d { state = start context_done d.state } else d

module _ {E V : Type 0} where
  -- `NewClient`, around a new `ClientImpl`.
  unfoldable pub new_client : Config → ClientImpl E → ClientWrapper E V
  new_client config impl = record {
    impl = impl;
    config = config;
    drainer_manager =
        new_drainer_manager (drainer_config config.write_back config.write_back.drain_rate);
    tables = [];
    started = false;
    replaced = [];
  }

  unfoldable pub track : String → ℕ → Drainer V → ClientWrapper E V → ClientWrapper E V
  unfolding to_list
  track name table drainer cw =
      let dm = cw.drainer_manager in
      record cw {
        tables = insert name table cw.tables;
        drainer_manager = record dm { drainers = insert name drainer dm.drainers };
        replaced = to_list (lookup name dm.drainers) ++ cw.replaced;
      }

  -- What follows the client's own `EnableKV`.
  unfoldable pub track_enabled :
      Bool → String → List TableOption → (ℕ → V) → Result ℕ → Exec (ClientWrapper E V) ℕ
  unfolding track table_drainer table_settings
  track_enabled context_done name opts backends (err e) cw = (err e, cw)
  track_enabled context_done name opts backends (ok table) cw =
      let rate = (table_settings cw.config name opts).drain_rate in
      let config = drainer_config cw.config.write_back rate in
      (
        ok table,
        track name table (table_drainer context_done name (backends table) config cw.started) cw,
      )

  unfoldable pub enable_kv :
      Bool
      → String
      → List TableOption
      → (ℕ → V)
      → ℕ
      → ℕ
      → Result Schema
      → Done
      → Exec (ClientWrapper E V) ℕ
  unfolding track_enabled
  enable_kv context_done name opts backends now fresh schema kafka cw =
      let (r, impl) = Ops.enable_kv name now fresh schema kafka cw.impl in
      track_enabled context_done name opts backends r (record cw { impl = impl })

  unfoldable pub disable_kv : String → ℕ → Exec (ClientWrapper E V) (Unit {0})
  disable_kv name now cw =
      let (r, impl) = Ops.disable_kv name now cw.impl in
      (
        r,
        record cw {
          impl = impl;
          drainer_manager = (remove_drainer name cw.drainer_manager).1;
          tables = erase name cw.tables;
        },
      )

  get_table : ClientWrapper E V → String → Result ℕ
  get_table cw name = elim (lookup name cw.tables) [
    | some table ↦ ok table
    | none ↦ Ops.get_table cw.impl name
  ]

  -- `Start` and `Stop`; no drainer's own ever returns an error.
  unfoldable pub start_client : Bool → ClientWrapper E V → ClientWrapper E V
  start_client context_done cw =
      if cw.started
      then cw
      else record cw { drainer_manager = start_all context_done cw.drainer_manager; started = true }

  unfoldable pub stop_client : ClientWrapper E V → ClientWrapper E V
  stop_client cw =
      if cw.started
      then record cw { drainer_manager = stop_all cw.drainer_manager; started = false }
      else cw

  unfoldable pub close : (List Error → String) → Done → Done → Exec (ClientWrapper E V) (Unit {0})
  unfolding stop_client
  close format kv database cw =
      let cw' = stop_client cw in
      let (r, impl) = Ops.close format kv database cw'.impl in (r, record cw' { impl = impl })
