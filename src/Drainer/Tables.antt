-- ===== src/Drainer/Tables.antt =====
-- The worker of a table with an in-memory queue: its queue and its executor are those of the table, as
-- `EnableKV` of pkg/shockabsorber/client.go makes it.
use shock_absorber.Prelude.{
  ◌≡◌, refl, ap, ◌∙◌, Bool, true, false, List, [], ◌∷◌, Option, none, some, Error, ok, err, Done,
  done, Exec, num_eq, if◌then◌else◌, arith,
}
use shock_absorber.Core.{
  Value, Record, OperationType, WriteOperation, create, update, delete, other,
}
use shock_absorber.Table.State.{TableImpl, World, QueueOps}
use shock_absorber.Table.Ops.{write_to_database, execute_write_operation}
use shock_absorber.WriteBack.Memory.{MemoryQueue, enqueue, dequeue, size}
use shock_absorber.Drainer.{Worker, DrainerConfig, process, iteration, after_dequeue, run}
use shock_absorber.Drainer.Loop.{Backends, memory_worker, memory_ops}

module _ {S D Q : Type 0} (t : TableImpl S D Q) where
  -- The queue of the table, on the state of the table.
  pub table_queue : QueueOps (World S D Q)
  table_queue = record {
    enqueue = λ op w. let (r, q) = t.write_queue.enqueue op w.queue in (r, record w { queue = q });
    dequeue =
        λ n w. let (batch, q) = t.write_queue.dequeue n w.queue in (batch, record w { queue = q });
    size = λ w. t.write_queue.size w.queue;
  }

  -- The worker of the drainer of the table.
  pub table_worker :
      Exec (World S D Q) (Unit {0}) → (Error → Bool) → DrainerConfig → Worker (World S D Q)
  table_worker wait ends config = record {
    queue = table_queue;
    execute_write_operation = execute_write_operation t;
    wait = wait;
    ends = ends;
    config = config;
  }

-- The in-memory queue of a table, called with contexts that are not done.
abbrev pub memory_queue_ops : QueueOps MemoryQueue
memory_queue_ops = record {
  enqueue = λ op. enqueue false true (some op);
  dequeue = λ n. dequeue n false (λ i. true);
  size = size;
}

-- A worker that runs inside a larger state as another one does on its own.
pub record Inside {B W : Type 0} (into : B → W) (small : Worker B) (large : Worker W) : Type 0 where
  pub sizes : (b : B) → large.queue.size (into b) ≡ small.queue.size b
  pub same_config : large.config ≡ small.config
  pub same_ends : large.ends ≡ small.ends
  pub dequeues :
      (b : B)
      → large.queue.dequeue large.config.batch_size (into b)
        ≡ (let (r, b') = small.queue.dequeue small.config.batch_size b in (r, into b'))
  pub waits : (b : B) → large.wait (into b) ≡ (let (r, b') = small.wait b in (r, into b'))
  pub executes :
      (op : WriteOperation) (b : B)
      → large.execute_write_operation op (into b)
        ≡ (let (r, b') = small.execute_write_operation op b in (r, into b'))

module _ {B W : Type 0} (into : B → W) (small : Worker B) (large : Worker W)
    (i : Inside into small large) where
  abbrev both : Bool × B → Bool × W
  both (on, b) = (on, into b)

  -- What follows a wait.
  abbrev after_wait :
      {A : Type 0} → Worker A → WriteOperation → List WriteOperation → Done × A → Bool × A
  after_wait d op ops p = elim p.0 [
    | ok u ↦ process d ops (d.execute_write_operation op p.1).1
    | err e ↦ elim (d.ends e) [ true ↦ (false, p.1) | false ↦ process d ops p.1 ]
  ]

  after_wait-Inside :
      (op : WriteOperation) (ops : List WriteOperation)
      → ((b : B) → process large ops (into b) ≡ both (process small ops b))
      → (p : Done × B) → after_wait large op ops (p.0, into p.1) ≡ both (after_wait small op ops p)
  after_wait-Inside op ops rest (ok u, b) =
      ap (λ p. process large ops p.1) (i.executes op b)
      ∙ rest (small.execute_write_operation op b).1
  after_wait-Inside op ops rest (err e, b) =
      ap (λ f. elim (f e) [ true ↦ (false, into b) | false ↦ process large ops (into b) ])
        i.same_ends
      ∙ (elim (small.ends e)
          as (λ x.
            elim x [ true ↦ (false, into b) | false ↦ process large ops (into b) ]
            ≡ both (elim x [ true ↦ (false, b) | false ↦ process small ops b ])) [
              | true ↦ refl
              | false ↦ rest b
            ])

  process-Inside :
      (ops : List WriteOperation) (b : B) → process large ops (into b) ≡ both (process small ops b)
  unfolding process
  process-Inside [] b = refl
  process-Inside (op ∷ ops) b =
      ap (after_wait large op ops) (i.waits b)
      ∙ after_wait-Inside op ops (process-Inside ops) (small.wait b)

  after_dequeue-Inside :
      (p : (List WriteOperation × Option Error) × B)
      → after_dequeue large (p.0, into p.1) ≡ both (after_dequeue small p)
  unfolding after_dequeue
  after_dequeue-Inside ((ops, some e), b) = refl
  after_dequeue-Inside ((ops, none), b) = process-Inside ops b

  iteration-Inside : (b : B) → iteration large (into b) ≡ both (iteration small b)
  unfolding iteration
  iteration-Inside b =
      ap
        (λ n.
          if num_eq n 0
          then (true, into b)
          else after_dequeue large (large.queue.dequeue large.config.batch_size (into b)))
        (i.sizes b)
      ∙ ap (λ p. if num_eq (small.queue.size b) 0 then (true, into b) else after_dequeue large p)
          (i.dequeues b)
      ∙ ap (λ p. if num_eq (small.queue.size b) 0 then (true, into b) else p)
          (after_dequeue-Inside (small.queue.dequeue small.config.batch_size b))
      ∙ ground arith

  -- What follows a turn.
  abbrev after_turn : {A : Type 0} → Worker A → List Bool → Bool × A → Bool × A
  after_turn d stops p = elim p.0 [ true ↦ run d stops p.1 | false ↦ (false, p.1) ]

  after_turn-Inside :
      (stops : List Bool)
      → ((b : B) → run large stops (into b) ≡ both (run small stops b))
      → (p : Bool × B) → after_turn large stops (both p) ≡ both (after_turn small stops p)
  after_turn-Inside stops rest (true, b) = rest b
  after_turn-Inside stops rest (false, b) = refl

  -- The larger worker runs as the smaller one does.
  pub run-Inside : (stops : List Bool) (b : B) → run large stops (into b) ≡ both (run small stops b)
  unfolding run
  run-Inside [] b = refl
  run-Inside (true ∷ stops) b = refl
  run-Inside (false ∷ stops) b =
      ap (after_turn large stops) (iteration-Inside b)
      ∙ after_turn-Inside stops (run-Inside stops) (iteration small b)

module _ {S D : Type 0} (t : TableImpl S D MemoryQueue) (w : World S D MemoryQueue) where
  -- The state of the table with the queue and the database that a worker works with.
  abbrev pub into_table : Backends D → World S D MemoryQueue
  into_table b = record w { queue = b.memory; db = b.database }

  -- `ExecuteWriteOperation`, as far as the database goes.
  unfoldable pub execute_on : WriteOperation → Exec D (Unit {0})
  execute_on op d = let (r, w') = execute_write_operation t op (record w { db = d }) in (r, w'.db)

  write_to_database-into_table :
      (o : OperationType) (key : Value) (payload : Option Record) (b : Backends D)
      → write_to_database t o key payload (into_table b) ≡ (
          let (r, w') = write_to_database t o key payload (record w { db = b.database }) in
          (r, into_table (record b { database = w'.db })))
  unfolding write_to_database
  write_to_database-into_table create key payload b = ground arith
  write_to_database-into_table update key payload b = ground arith
  write_to_database-into_table delete key payload b = ground arith
  write_to_database-into_table (other n) key payload b = ground arith

  -- Where the table's queue is the in-memory one, its worker runs as that of the queue and the database.
  pub table_worker-Inside :
      (wait : Exec (World S D MemoryQueue) (Unit {0})) (ends : Error → Bool)
      (config : DrainerConfig)
      → ((v : World S D MemoryQueue) → wait v ≡ (done, v))
      → t.write_queue ≡ memory_queue_ops
      → Inside into_table
          (memory_worker execute_on (λ b. (done, b)) ends config)
          (table_worker t wait ends config)
  unfolding table_worker table_queue memory_worker memory_ops execute_on execute_write_operation
  table_worker-Inside wait ends config passes same = rw same record {
    sizes = λ b. refl;
    same_config = refl;
    same_ends = refl;
    dequeues = λ b. refl;
    waits = λ b. passes (into_table b);
    executes = λ op b. write_to_database-into_table op.operation op.key op.payload b;
  }
