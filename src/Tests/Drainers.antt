-- ===== src/Tests/Drainers.antt =====
-- The theorems on drainers, at small queues and managers.
use shock_absorber.Prelude.{
  ℕ, suc, ◌≡◌, refl, true, false, List, [], ◌∷◌, map, some, errorf, done, err, Exec, if◌then◌else◌,
  ◌==◌, arith,
}
use shock_absorber.Core.{WriteOperation}
use shock_absorber.Drainer.{run, default_drainer_config}
use shock_absorber.Drainer.Loop.{Backends, memory_worker, execute_all, run_drains}
use shock_absorber.Drainer.Restart.{
  DrainerState, new_state, IsSound, calls-IsSound, calls, starts, stops, cancels,
}
use shock_absorber.Drainer.Race.{Shared, Reach, stop_races_start}
use shock_absorber.Tests.Servers.{operation_on}

-- A database that refuses the operations on one table and counts the others.
abbrev execute : WriteOperation → Exec ℕ (Unit {0})
execute op n = if op.table == "orders" then (err (errorf "no such table" []), n) else (done, suc n)

abbrev let_through : Exec (Backends ℕ) (Unit {0})
let_through w = (done, w)

abbrev two_operations : List WriteOperation
two_operations = operation_on "orders" ∷ operation_on "users" ∷ []

run_drains_example :
    run
      (memory_worker execute let_through (λ e. false) default_drainer_config)
      (false ∷ false ∷ false ∷ [])
      (record {
        memory = record { queue = map some two_operations; closed = true; size = 9 };
        database = 0;
      })
    ≡ (
      true,
      record {
        memory = record { queue = []; closed = true; size = 9 };
        database = execute_all execute two_operations 0;
      },
    )
run_drains_example =
    run_drains execute let_through (λ e. false) default_drainer_config (λ w. refl) true 9 3
      two_operations 0 (omega arith)

calls-IsSound_example :
    IsSound (calls (starts false ∷ stops ∷ starts true ∷ cancels ∷ starts false ∷ []) new_state)
calls-IsSound_example =
    calls-IsSound (starts false ∷ stops ∷ starts true ∷ cancels ∷ starts false ∷ [])

abbrev running_state : DrainerState
running_state = record {
  running = true;
  stop_channel = 1;
  cancelled = false;
  workers = 1;
  closed = [];
  next_channel = 2;
  panicked = false;
}

stop_races_start_example :
    ((t : Shared) × Reach (record { drainer = running_state; stopping = 0 }) t
      × (t.drainer.running ≡ true)
      × (t.drainer.workers ≡ 2))
    × ((u : Shared) × Reach (record { drainer = running_state; stopping = 0 }) u
        × (u.drainer.panicked ≡ true))
stop_races_start_example =
    stop_races_start running_state (refl, tt, refl, λ h. refl, omega arith) refl refl
