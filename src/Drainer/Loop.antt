-- ===== src/Drainer/Loop.antt =====
-- The worker over the in-memory queue of internal/writeback/memory_queue.go.
use shock_absorber.Prelude.{
  ℕ, zero, suc, ◌≤◌, ℤ, pos, negsuc, ◌≡◌, refl, ap, ◌∙◌, sym, Bool, true, false, List, [], ◌∷◌,
  ◌++◌, map, some, Error, Result, ok, err, done, Exec, num_eq, if◌then◌else◌, take, drop, length,
  take-append-drop, length-drop, arith,
}
use shock_absorber.Core.{WriteOperation}
use shock_absorber.Table.State.{QueueOps}
use shock_absorber.WriteBack.Memory.{MemoryQueue, positive_or, enqueue, dequeue, size}
use shock_absorber.WriteBack.Memory.Fifo.{dequeue_oldest}
use shock_absorber.Drainer.{Worker, DrainerConfig, process, iteration, after_dequeue, run}

-- The queue and the database behind a worker.
pub record Backends (D : Type 0) : Type 0 where
  pub memory : MemoryQueue
  pub database : D

module _ {D : Type 0} where
  -- The in-memory queue of a worker, called with contexts that are not done.
  unfoldable pub memory_ops : QueueOps (Backends D)
  memory_ops = record {
    enqueue =
        λ op w. let (r, q) = enqueue false true (some op) w.memory in (r, record w { memory = q });
    dequeue = λ b w.
        let (batch, q) = dequeue b false (λ n. true) w.memory in (batch, record w { memory = q });
    size = λ w. size w.memory;
  }

  -- A worker whose executor writes to the database.
  unfoldable pub memory_worker :
      (WriteOperation → Exec D (Unit {0}))
      → Exec (Backends D) (Unit {0})
      → (Error → Bool)
      → DrainerConfig
      → Worker (Backends D)
  memory_worker execute wait ends config = record {
    queue = memory_ops;
    execute_write_operation =
        λ op w. let (r, d) = execute op w.database in (r, record w { database = d });
    wait = wait;
    ends = ends;
    config = config;
  }

  -- Every operation once, in order, whether or not the one before it failed.
  abbrev pub execute_all : (WriteOperation → Exec D (Unit {0})) → List WriteOperation → D → D
  execute_all execute [] d = d
  execute_all execute (op ∷ ops) d = execute_all execute ops (execute op d).1

nothing_left :
    (n : ℕ) → ◌≡◌ {A = List WriteOperation × List WriteOperation} ([], []) (take n [], drop n [])
nothing_left zero = refl
nothing_left (suc n) = refl

not_empty : (n : ℕ) → 1 ≤ n → num_eq n 0 ≡ false
not_empty n h = ground arith

not_at_most : (n : ℕ) → ¬ (suc n ≤ 0)
not_at_most n = omega arith

process-cons :
    {W : Type 0} (d : Worker W) (op : WriteOperation) (ops : List WriteOperation) (w w' : W)
    → d.wait w ≡ (done, w')
    → process d (op ∷ ops) w ≡ process d ops (d.execute_write_operation op w').1
unfolding process
process-cons d op ops w w' e =
    ap
      (λ (r : Result (Unit {0}) × _). elim r.0 [
        | ok u ↦ process d ops (d.execute_write_operation op r.1).1
        | err x ↦ elim (d.ends x) [ true ↦ (false, r.1) | false ↦ process d ops r.1 ]
      ])
      e

-- Turns in which neither the stop channel nor the context is taken.
abbrev pub turns : ℕ → List Bool
turns zero = []
turns (suc k) = false ∷ turns k

module _ {D : Type 0} (execute : WriteOperation → Exec D (Unit {0}))
    (wait : Exec (Backends D) (Unit {0})) (ends : Error → Bool) (config : DrainerConfig)
    (waits : (w : Backends D) → wait w ≡ (done, w)) where
  process-execute_all :
      (ops : List WriteOperation) (w : Backends D)
      → process (memory_worker execute wait ends config) ops w
        ≡ (true, record w { database = execute_all execute ops w.database })
  unfolding process memory_worker
  process-execute_all [] w = refl
  process-execute_all (op ∷ ops) w =
      process-cons (memory_worker execute wait ends config) op ops w w (waits w)
      ∙ process-execute_all ops (record w { database = (execute op w.database).1 })

  execute_all-append :
      (ops more : List WriteOperation) (d : D)
      → execute_all execute (ops ++ more) d ≡ execute_all execute more (execute_all execute ops d)
  execute_all-append [] more d = refl
  execute_all-append (op ∷ ops) more d = execute_all-append ops more (execute op d).1

  abbrev holding : Bool → ℕ → List WriteOperation → D → Backends D
  holding closed n ops d = record {
    memory = record { queue = map some ops; closed = closed; size = n };
    database = d;
  }

  turn_on_nonempty :
      (w : Backends D)
      → 1 ≤ length w.memory.queue
      → iteration (memory_worker execute wait ends config) w
        ≡ after_dequeue (memory_worker execute wait ends config) (
            let (batch, q) = dequeue config.batch_size false (λ n. true) w.memory in
            (batch, record w { memory = q }))
  unfolding iteration memory_worker memory_ops size
  turn_on_nonempty w h =
      ap
        (λ b.
          if b
          then (true, w)
          else after_dequeue (memory_worker execute wait ends config) (
              let (batch, q) = dequeue config.batch_size false (λ n. true) w.memory in
              (batch, record w { memory = q })))
        (not_empty (length w.memory.queue) h)

  -- One turn takes a batch off the queue and executes it.
  iteration_takes :
      (closed : Bool) (n : ℕ) (ops : List WriteOperation) (d : D)
      → iteration (memory_worker execute wait ends config) (holding closed n ops d) ≡ (
        true,
        holding closed n
            (drop (positive_or 100 config.batch_size) ops)
            (execute_all execute (take (positive_or 100 config.batch_size) ops) d),
      )
  unfolding iteration after_dequeue memory_worker memory_ops size
  iteration_takes closed n [] d =
      ap
        (λ (r : List WriteOperation × List WriteOperation).
          (true, holding closed n r.1 (execute_all execute r.0 d)))
        (nothing_left (positive_or 100 config.batch_size))
  iteration_takes closed n (op ∷ ops) d =
      turn_on_nonempty (holding closed n (op ∷ ops) d) (omega arith)
      ∙ ap
          (λ r.
            after_dequeue (memory_worker execute wait ends config)
              (r.0, record (holding closed n (op ∷ ops) d) { memory = r.1 }))
          (dequeue_oldest config.batch_size (λ n. true) (op ∷ ops)
            (record { queue = map some (op ∷ ops); closed = closed; size = n }) refl)
      ∙ process-execute_all (take (positive_or 100 config.batch_size) (op ∷ ops))
          (holding closed n (drop (positive_or 100 config.batch_size) (op ∷ ops)) d)

  run_turn :
      (d : Worker (Backends D)) (stops : List Bool) (w w' : Backends D)
      → iteration d w ≡ (true, w')
      → run d (false ∷ stops) w ≡ run d stops w'
  unfolding run
  run_turn d stops w w' e =
      ap (λ (r : Bool × Backends D). elim r.0 [ true ↦ run d stops r.1 | false ↦ (false, r.1) ]) e

  batch_positive : (b : ℤ) → 1 ≤ positive_or 100 b
  batch_positive (pos zero) = omega arith
  batch_positive (pos (suc n)) = omega arith
  batch_positive (negsuc n) = omega arith

  -- With a limiter that lets every operation through, a worker on the in-memory queue, called with
  -- contexts that are not done and not told to stop, empties it in as many turns as it holds
  -- operations, or more, whatever its batch size is and whether or not the queue is closed: it
  -- still runs, and the database is as after executing each operation once, in the order of the
  -- queue. One whose execution fails is not put back.
  pub run_drains :
      (closed : Bool) (n k : ℕ) (ops : List WriteOperation) (d : D)
      → length ops ≤ k
      → run (memory_worker execute wait ends config) (turns k) (holding closed n ops d)
        ≡ (true, holding closed n [] (execute_all execute ops d))
  unfolding run
  run_drains closed n zero [] d h = refl
  run_drains closed n zero (op ∷ ops) d h = absurd (not_at_most (length ops) h)
  run_drains closed n (suc k) ops d h =
      let m = positive_or 100 config.batch_size in
      run_turn (memory_worker execute wait ends config) (turns k) (holding closed n ops d) _
        (iteration_takes closed n ops d)
      ∙ run_drains closed n k (drop m ops) (execute_all execute (take m ops) d)
          (omega (arith, length-drop m ops, batch_positive config.batch_size))
      ∙ ap (λ x. (true, holding closed n [] x))
          (sym (execute_all-append (take m ops) (drop m ops) d)
            ∙ ap (λ l. execute_all execute l d) (take-append-drop m ops))
