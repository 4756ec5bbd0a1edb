-- ===== src/Drainer.antt =====
-- pkg/shockabsorber/drainer.go: the worker of a table, which takes operations off the queue and writes
-- them to the database, and the manager of the workers.
-- `W` is the state behind the queue, the executor and the rate limiter. The limiter is a third-party
-- package: `wait` is its `Wait`, `ends` tells the errors of a context that is done. The batches of
-- both queues hold no nil entry, so the test for one has no counterpart.
pub mod Loop
pub mod Restart
pub mod Race
pub mod Manager
pub mod Tables
pub mod Writes
pub mod WrittenBack
use shock_absorber.Prelude.{
  ℕ, String, ℤ, pos, ◌≡◌, Bool, true, false, List, [], ◌∷◌, Option, none, some, Error, Result, ok,
  err, Exec, num_eq, if◌then◌else◌, not_positive,
}
use shock_absorber.Core.{WriteOperation}
use shock_absorber.Table.State.{QueueOps}

-- DrainerConfig; durations are in nanoseconds.
pub record DrainerConfig : Type 0 where
  pub drain_rate : ℤ
  pub batch_size : ℤ
  pub poll_interval : ℤ
  pub max_retries : ℤ
  pub retry_backoff : ℤ

-- `DefaultDrainerConfig`
abbrev pub default_drainer_config : DrainerConfig
default_drainer_config = record {
  drain_rate = pos 50;
  batch_size = pos 1;
  poll_interval = pos 100000000;
  max_retries = pos 3;
  retry_backoff = pos 1000000000;
}

abbrev pub at_least_one : ℤ → ℤ → ℤ
at_least_one d n = if not_positive n then d else n

-- The configuration that `NewDrainer` keeps.
unfoldable pub checked_config : DrainerConfig → DrainerConfig
checked_config c = record c {
  drain_rate = at_least_one default_drainer_config.drain_rate c.drain_rate;
  batch_size = at_least_one default_drainer_config.batch_size c.batch_size;
  poll_interval = at_least_one default_drainer_config.poll_interval c.poll_interval;
}

-- What a drainer works with.
pub record Worker (W : Type 0) : Type 0 where
  pub queue : QueueOps W
  pub execute_write_operation : WriteOperation → Exec W (Unit {0})
  pub wait : Exec W (Unit {0})
  pub ends : Error → Bool
  pub config : DrainerConfig

module _ {W : Type 0} (d : Worker W) where
  -- The loop over a batch: the worker's going on, and the state. An operation that fails is only
  -- logged.
  unfoldable pub process : List WriteOperation → W → Bool × W
  process [] w = (true, w)
  process (op ∷ ops) w =
      let (waited, w') = d.wait w in
      elim waited [
        | ok u ↦ process ops (d.execute_write_operation op w').1
        | err e ↦ elim (d.ends e) [ true ↦ (false, w') | false ↦ process ops w' ]
      ]

  unfoldable pub after_dequeue : (List WriteOperation × Option Error) × W → Bool × W
  after_dequeue ((ops, some e), w) = (true, w)
  after_dequeue ((ops, none), w) = process ops w

  -- The default case of the loop of `run`.
  unfoldable pub iteration : W → Bool × W
  unfolding after_dequeue process
  iteration w =
      if num_eq (d.queue.size w) 0
      then (true, w)
      else after_dequeue (d.queue.dequeue d.config.batch_size w)

  -- `run`, for as many turns as `stops` has entries, each of which says whether the `select` of its
  -- turn took the stop channel or the context; it tells whether the worker still runs.
  unfoldable pub run : List Bool → W → Bool × W
  unfolding iteration
  run [] w = (true, w)
  run (true ∷ stops) w = (false, w)
  run (false ∷ stops) w =
      let (on, w') = iteration w in elim on [ true ↦ run stops w' | false ↦ (false, w') ]
