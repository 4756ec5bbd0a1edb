-- ===== src/Drainer/Manager.antt =====
-- `DrainerManager` of pkg/shockabsorber/drainer.go: the drainers by table name.
use shock_absorber.Prelude.{
  ℕ, String, ◌≡◌, Bool, false, [], ◌∷◌, Option, none, some, Map, lookup, insert, erase,
  lookup-insert, lookup-erase, lookup-insert_self, lookup-erase_self, length, arith, eq_iff,
  if◌then◌else◌, ◌==◌, Option-cases, inl, inr,
}
use shock_absorber.Drainer.{DrainerConfig, checked_config}
use shock_absorber.Drainer.Restart.{
  DrainerState, new_state, start, stop, stop_begin, stop_close, workers_return,
}

-- `V` is what the caller gives a drainer to work with: its queue and its executor.
pub record Drainer (V : Type 0) : Type 0 where
  pub table_name : String
  pub backends : V
  pub config : DrainerConfig
  pub state : DrainerState

pub record DrainerManager (V : Type 0) : Type 0 where
  pub drainers : Map (Drainer V)
  pub config : DrainerConfig

pub stopped_not_running : (s : DrainerState) → (stop s).running ≡ false
unfolding stop stop_begin stop_close workers_return
stopped_not_running s = ground arith

module _ {V : Type 0} where
  -- `NewDrainer`
  abbrev pub new_drainer : String → V → DrainerConfig → Drainer V
  new_drainer table_name backends config = record {
    table_name = table_name;
    backends = backends;
    config = checked_config config;
    state = new_state;
  }

  -- `NewDrainerManager`
  abbrev pub new_drainer_manager : DrainerConfig → DrainerManager V
  new_drainer_manager config = record { drainers = []; config = config }

  -- `AddDrainer`
  unfoldable pub add_drainer : String → V → DrainerManager V → Drainer V × DrainerManager V
  add_drainer table_name backends dm = elim (lookup table_name dm.drainers) [
    | some existing ↦ (existing, dm)
    | none ↦
        let drainer = new_drainer table_name backends dm.config in
        (drainer, record dm { drainers = insert table_name drainer dm.drainers })
  ]

  -- `GetDrainer`
  unfoldable pub get_drainer : String → DrainerManager V → Option (Drainer V)
  get_drainer table_name dm = lookup table_name dm.drainers

  abbrev pub on_each : (DrainerState → DrainerState) → Map (Drainer V) → Map (Drainer V)
  on_each f [] = []
  on_each f ((name, d) ∷ rest) = (name, record d { state = f d.state }) ∷ on_each f rest

  -- `StartAll` and `StopAll`; neither `Start` nor `Stop` ever returns an error.
  unfoldable pub start_all : Bool → DrainerManager V → DrainerManager V
  start_all context_done dm = record dm { drainers = on_each (start context_done) dm.drainers }

  unfoldable pub stop_all : DrainerManager V → DrainerManager V
  stop_all dm = record dm { drainers = on_each stop dm.drainers }

  -- `RemoveDrainer`: the drainer that it stopped, and the manager.
  unfoldable pub remove_drainer : String → DrainerManager V → Option (Drainer V) × DrainerManager V
  remove_drainer table_name dm = elim (lookup table_name dm.drainers) [
    | none ↦ (none, dm)
    | some d ↦ (
      some (record d { state = stop d.state }),
      record dm { drainers = erase table_name dm.drainers },
    )
  ]

  -- `Count`
  unfoldable pub count : DrainerManager V → ℕ
  count dm = length dm.drainers

  -- One drainer for a table: after `AddDrainer` the manager hands out the drainer that it returned,
  -- a second `AddDrainer` for the table returns that drainer too, whatever it is given, and changes
  -- nothing, and the drainers of other tables are as before.
  pub add_drainer_once :
      (table other : String) (backends later : V) (dm : DrainerManager V)
      → let (drainer, dm') = add_drainer table backends dm in
        (get_drainer table dm' ≡ some drainer)
        × (add_drainer table later dm' ≡ (drainer, dm'))
        × (get_drainer other dm' ≡ (if table == other then some drainer else get_drainer other dm))
  unfolding add_drainer get_drainer
  add_drainer_once table other backends later dm = elim (Option-cases (lookup table dm.drainers)) [
    | inl e ↦ ground (
      arith,
      e,
      eq_iff table other,
      lookup-insert table other (new_drainer table backends dm.config) dm.drainers,
      lookup-insert_self table (new_drainer table backends dm.config) dm.drainers,
    )
    | inr (d, e) ↦ ground (arith, e, eq_iff table other)
  ]

  -- `RemoveDrainer` of a table with a drainer: the drainer is not running afterwards, the manager has
  -- none for the table and the same as before for every other, and a new `AddDrainer` makes a new one.
  pub remove_drainer_stops :
      (table other : String) (backends : V) (d : Drainer V) (dm : DrainerManager V)
      → get_drainer table dm ≡ some d
      → let (removed, dm') = remove_drainer table dm in
        (removed ≡ some (record d { state = stop d.state }))
        × ((stop d.state).running ≡ false)
        × (get_drainer other dm' ≡ (if table == other then none else get_drainer other dm))
        × ((add_drainer table backends dm').0 ≡ new_drainer table backends dm.config)
  unfolding remove_drainer get_drainer add_drainer
  remove_drainer_stops table other backends d dm e = ground (
    arith,
    stopped_not_running d.state,
    eq_iff table other,
    lookup-erase table other dm.drainers,
    lookup-erase_self table dm.drainers,
  )
