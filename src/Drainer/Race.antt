-- ===== src/Drainer/Race.antt =====
-- `Start` and `Stop` of one drainer from several goroutines, with contexts that are not done: `Stop`
-- leaves the lock before it closes the stop channel.
use shock_absorber.Prelude.{ℕ, suc, ◌≡◌, refl, true, false, arith}
use shock_absorber.Drainer.Restart.{
  DrainerState, has, start, stop_begin, stop_close, IsSound, has_fresh,
}

-- A drainer, and how many `Stop` calls have yet to close its channel.
pub record Shared : Type 0 where
  pub drainer : DrainerState
  pub stopping : ℕ

-- A worker returns at a turn that finds the drainer's channel of that moment closed.
pub data Step (s : Shared) (t : Shared) : Type 0 where
  starts : t ≡ record s { drainer = start false s.drainer } → Step s t
  begins_stop :
      (stop_begin s.drainer).0 ≡ true
      → t ≡ record { drainer = (stop_begin s.drainer).1; stopping = suc s.stopping }
      → Step s t
  closes :
      (n : ℕ)
      → s.stopping ≡ suc n
      → t ≡ record { drainer = stop_close s.drainer; stopping = n }
      → Step s t
  returns :
      (n : ℕ)
      → s.drainer.workers ≡ suc n
      → has s.drainer.stop_channel s.drainer.closed ≡ true
      → t ≡ record s { drainer = record s.drainer { workers = n } }
      → Step s t

pub data Reach (s : Shared) : Shared → Type 0 where
  here : Reach s s
  next : {t u : Shared} → Reach s t → Step t u → Reach s u

-- `Start` between the two halves of a `Stop`.
restarted : DrainerState → DrainerState
restarted s = start false (stop_begin s).1

-- The channel of the new worker is closed, and closed again by a second `Stop`.
closed_twice : DrainerState → DrainerState
closed_twice s = stop_close (stop_begin (stop_close (restarted s))).1

restarted-running :
    (s : DrainerState)
    → s.running ≡ true
    → has s.next_channel s.closed ≡ false
    → ((stop_begin s).0 ≡ true)
      × ((restarted s).running ≡ true)
      × ((restarted s).workers ≡ suc s.workers)
      × ((stop_begin (stop_close (restarted s))).0 ≡ true)
unfolding restarted stop_begin start stop_close
restarted-running s e fresh = ground arith

closed_twice-panics :
    (s : DrainerState)
    → s.running ≡ true
    → has s.next_channel s.closed ≡ false
    → (closed_twice s).panicked ≡ true
unfolding closed_twice restarted stop_begin start stop_close
closed_twice-panics s e fresh = ground arith

-- From every sound running drainer whose context is not done, a `Start` between the two halves of a
-- `Stop` leaves two workers running at the same time, on a drainer that says that it runs; and a second
-- `Stop` can then close a channel that is closed already, which panics.
pub stop_races_start :
    (s : DrainerState)
    → IsSound s
    → s.running ≡ true
    → s.cancelled ≡ false
    → ((t : Shared) × Reach (record { drainer = s; stopping = 0 }) t
        × (t.drainer.running ≡ true)
        × (t.drainer.workers ≡ 2))
      × ((u : Shared) × Reach (record { drainer = s; stopping = 0 }) u
          × (u.drainer.panicked ≡ true))
unfolding restarted closed_twice
stop_races_start s (_, older, one, _, _) e live =
    let fresh = has_fresh s.next_channel s.closed older in
    let (first, runs, more, second) = restarted-running s e fresh in
    let a1 : Shared = record { drainer = (stop_begin s).1; stopping = 1 } in
    let a2 : Shared = record { drainer = restarted s; stopping = 1 } in
    let a3 : Shared = record { drainer = stop_close (restarted s); stopping = 0 } in
    let a4 : Shared = record {
      drainer = (stop_begin (stop_close (restarted s))).1;
      stopping = 1;
    } in
    let a5 : Shared = record { drainer = closed_twice s; stopping = 0 } in
    let restart =
      next {t = a1} (next {t = record { drainer = s; stopping = 0 }} here (begins_stop first refl))
        (starts refl) in
    let again =
      next {t = a3} (next {t = a2} restart (closes 0 refl refl)) (begins_stop second refl) in
    (
      (a2, restart, runs, ground (arith, more, one, e, live)),
      (a5, next {t = a4} again (closes 0 refl refl), closed_twice-panics s e fresh),
    )
