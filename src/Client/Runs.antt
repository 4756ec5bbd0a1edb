-- ===== src/Client/Runs.antt =====
-- pkg/shockabsorber/client.go: the drainers of a client over its calls.
use shock_absorber.Prelude.{
  ℕ, String, ◌≡◌, refl, subst, Bool, true, false, List, [], ◌∷◌, Option, some, none, Map, lookup,
  insert, erase, Error, Result, ok, err, Done, ◌==◌, arith, All, Bool-cases, inl, inr,
  if◌then◌else◌,
}
use shock_absorber.Core.{Schema}
use shock_absorber.Settings.{Config}
use shock_absorber.Drainer.{DrainerConfig}
use shock_absorber.Drainer.Restart.{
  DrainerState, new_state, start, stop, IsSound, start-IsSound, stop-IsSound, cancel,
  cancel-IsSound,
}
use shock_absorber.Drainer.Manager.{
  Drainer, DrainerManager, on_each, start_all, stop_all, remove_drainer, stopped_not_running,
}
use shock_absorber.Client.Ops.{ClientImpl}
use shock_absorber.Client.Ops as Ops
use shock_absorber.Client.Wrapper.{
  ClientWrapper, TableOption, new_client, table_drainer, track, track_enabled, drainer_config,
  table_settings, enable_kv, disable_kv, start_client, stop_client, close,
}

-- The calls of a client that change something, with what they meet on the way: those that start
-- drainers say first whether their context is done.
pub data ClientCall (V : Type 0) : Type 0 where
  enables : Bool → String → List TableOption → (ℕ → V) → ℕ → ℕ → Result Schema → Done → ClientCall V
  disables : String → ℕ → ClientCall V
  starts : Bool → ClientCall V
  stops : ClientCall V
  -- The context that the drainer of a table was started with is done.
  cancels : String → ClientCall V
  closes : (List Error → String) → Done → Done → ClientCall V

-- A sound drainer that runs, or that does not.
abbrev Runs : Bool → DrainerState → Type 0
Runs b s = IsSound s × (s.running ≡ b)

start-Runs :
    (context_done b : Bool) (s : DrainerState) → Runs b s → Runs true (start context_done s)
unfolding start
start-Runs context_done b s (sound, r) = (start-IsSound context_done s sound, ground arith)

stop-Runs : (b : Bool) (s : DrainerState) → Runs b s → Runs false (stop s)
stop-Runs b s (sound, r) = (stop-IsSound s sound, stopped_not_running s)

cancel-Runs : (b : Bool) (s : DrainerState) → Runs b s → Runs b (cancel s)
unfolding cancel
cancel-Runs b s (sound, r) = (cancel-IsSound s sound, r)

new_state-Runs : Runs false new_state
new_state-Runs = ((refl, tt, refl, λ h. refl, ground arith), refl)

module _ {V : Type 0} where
  abbrev AllRun : Bool → Map (Drainer V) → Type 0
  AllRun b m = All (λ p. Runs b p.1.state) m

  AllRun-insert :
      (b : Bool) (name : String) (d : Drainer V) (m : Map (Drainer V))
      → Runs b d.state
      → AllRun b m
      → AllRun b (insert name d m)
  unfolding insert
  AllRun-insert b name d [] r rs = (r, tt)
  AllRun-insert b name d ((at, e) ∷ m) r (q, qs) = elim (Bool-cases (at == name)) [
    | inl same ↦ rw same (r, qs)
    | inr other ↦ rw other (q, AllRun-insert b name d m r qs)
  ]

  AllRun-erase :
      (b : Bool) (name : String) (m : Map (Drainer V)) → AllRun b m → AllRun b (erase name m)
  unfolding erase
  AllRun-erase b name [] rs = tt
  AllRun-erase b name ((at, e) ∷ m) (q, qs) = elim (Bool-cases (at == name)) [
    | inl same ↦ rw same (AllRun-erase b name m qs)
    | inr other ↦ rw other (q, AllRun-erase b name m qs)
  ]

  AllRun-on_each :
      (b b' : Bool) (f : DrainerState → DrainerState) (m : Map (Drainer V))
      → ((s : DrainerState) → Runs b s → Runs b' (f s))
      → AllRun b m
      → AllRun b' (on_each f m)
  AllRun-on_each b b' f [] h rs = tt
  AllRun-on_each b b' f ((at, d) ∷ m) h (q, qs) = (h d.state q, AllRun-on_each b b' f m h qs)

  remove_drainer-AllRun :
      (b : Bool) (name : String) (dm : DrainerManager V)
      → AllRun b dm.drainers
      → AllRun b (remove_drainer name dm).1.drainers
  unfolding remove_drainer
  remove_drainer-AllRun b name dm rs =
      let run : Option (Drainer V) → Option (Drainer V) × DrainerManager V = λ o. elim o [
        | none ↦ (none, dm)
        | some d ↦ (
          some (record d { state = stop d.state }),
          record dm { drainers = erase name dm.drainers },
        )
      ] in
      elim (lookup name dm.drainers) as (λ o. AllRun b (run o).1.drainers) [
        | none ↦ rs
        | some d ↦ AllRun-erase b name dm.drainers rs
      ]

  -- The context of the drainers of that name is done.
  unfoldable pub cancel_named : String → Map (Drainer V) → Map (Drainer V)
  cancel_named name [] = []
  cancel_named name ((at, d) ∷ rest) =
      (at, if at == name then record d { state = cancel d.state } else d) ∷ cancel_named name rest

  cancel_named-AllRun :
      (b : Bool) (name : String) (m : Map (Drainer V)) → AllRun b m → AllRun b (cancel_named name m)
  unfolding cancel_named
  cancel_named-AllRun b name [] rs = tt
  cancel_named-AllRun b name ((at, d) ∷ m) (q, qs) = elim (Bool-cases (at == name)) [
    | inl same ↦ rw same (cancel-Runs b d.state q, cancel_named-AllRun b name m qs)
    | inr other ↦ rw other (q, cancel_named-AllRun b name m qs)
  ]

  table_drainer-Runs :
      (context_done : Bool) (name : String) (backends : V) (config : DrainerConfig) (b : Bool)
      → Runs b (table_drainer context_done name backends config b).state
  unfolding table_drainer
  table_drainer-Runs context_done name backends config true =
      start-Runs context_done false new_state new_state-Runs
  table_drainer-Runs context_done name backends config false = new_state-Runs

module _ {E V : Type 0} where
  -- Each drainer that the client keeps is sound, and runs exactly while the client has started.
  abbrev pub InStep : ClientWrapper E V → Type 0
  InStep cw = AllRun cw.started cw.drainer_manager.drainers

  unfoldable pub call : ClientCall V → ClientWrapper E V → ClientWrapper E V
  call (enables context_done name opts backends now fresh schema kafka) cw =
      (enable_kv context_done name opts backends now fresh schema kafka cw).1
  call (disables name now) cw = (disable_kv name now cw).1
  call (starts context_done) cw = start_client context_done cw
  call (cancels name) cw =
      let dm = cw.drainer_manager in
      record cw { drainer_manager = record dm { drainers = cancel_named name dm.drainers } }
  call stops cw = stop_client cw
  call (closes format kv database) cw = (close format kv database cw).1

  unfoldable pub calls : List (ClientCall V) → ClientWrapper E V → ClientWrapper E V
  calls [] cw = cw
  calls (c ∷ cs) cw = calls cs (call c cw)

  start_client-InStep :
      (context_done : Bool) (cw : ClientWrapper E V)
      → InStep cw
      → InStep (start_client context_done cw)
  unfolding start_client start_all
  start_client-InStep context_done cw h = elim (Bool-cases cw.started) [
    | inl e ↦ rw (start_client, e) (subst (λ b. AllRun b cw.drainer_manager.drainers) e h)
    | inr e ↦
        rw (start_client, e)
          (AllRun-on_each cw.started true (start context_done) cw.drainer_manager.drainers
            (start-Runs context_done cw.started) h)
  ]

  stop_client-InStep : (cw : ClientWrapper E V) → InStep cw → InStep (stop_client cw)
  unfolding stop_client stop_all
  stop_client-InStep cw h = elim (Bool-cases cw.started) [
    | inl e ↦
        rw (stop_client, e)
          (AllRun-on_each cw.started false stop cw.drainer_manager.drainers (stop-Runs cw.started)
            h)
    | inr e ↦ rw (stop_client, e) (subst (λ b. AllRun b cw.drainer_manager.drainers) e h)
  ]

  track-InStep :
      (context_done : Bool) (name : String) (table : ℕ) (backends : V) (config : DrainerConfig)
      (cw : ClientWrapper E V)
      → InStep cw
      → InStep (track name table (table_drainer context_done name backends config cw.started) cw)
  unfolding track
  track-InStep context_done name table backends config cw h =
      AllRun-insert cw.started name (table_drainer context_done name backends config cw.started)
        cw.drainer_manager.drainers
        (table_drainer-Runs context_done name backends config cw.started) h

  track_enabled-InStep :
      (context_done : Bool) (name : String) (opts : List TableOption) (backends : ℕ → V)
      (r : Result ℕ) (cw : ClientWrapper E V)
      → InStep cw
      → InStep (track_enabled context_done name opts backends r cw).1
  unfolding track_enabled
  track_enabled-InStep context_done name opts backends (err e) cw h = h
  track_enabled-InStep context_done name opts backends (ok table) cw h =
      track-InStep context_done name table (backends table)
        (drainer_config cw.config.write_back (table_settings cw.config name opts).drain_rate) cw h

  call-InStep : (c : ClientCall V) (cw : ClientWrapper E V) → InStep cw → InStep (call c cw)
  unfolding call enable_kv disable_kv close
  call-InStep (enables context_done name opts backends now fresh schema kafka) cw h =
      let (r, impl) = Ops.enable_kv name now fresh schema kafka cw.impl in
      track_enabled-InStep context_done name opts backends r (record cw { impl = impl }) h
  call-InStep (disables name now) cw h = remove_drainer-AllRun cw.started name cw.drainer_manager h
  call-InStep (starts context_done) cw h = start_client-InStep context_done cw h
  call-InStep (cancels name) cw h =
      cancel_named-AllRun cw.started name cw.drainer_manager.drainers h
  call-InStep stops cw h = stop_client-InStep cw h
  call-InStep (closes format kv database) cw h = stop_client-InStep cw h

  calls_keep :
      (cs : List (ClientCall V)) (cw : ClientWrapper E V) → InStep cw → InStep (calls cs cw)
  unfolding calls
  calls_keep [] cw h = h
  calls_keep (c ∷ cs) cw h = calls_keep cs (call c cw) (call-InStep c cw h)

  -- After any sequence of calls of `EnableKV`, `DisableKV`, `Start`, `Stop` and `Close` on a new
  -- client, with contexts that are done or not and may end in between: every drainer in the client's
  -- map says that it runs exactly while the client does; it has one worker while it says so and the
  -- context of its start is not done, on an open channel, and none otherwise; none has panicked.
  pub calls-InStep :
      (config : Config) (impl : ClientImpl E) (cs : List (ClientCall V))
      → InStep (calls cs (new_client config impl))
  unfolding new_client
  calls-InStep config impl cs = calls_keep cs (new_client config impl) tt
