-- ===== src/Drainer/WrittenBack.antt =====
-- A table with an in-memory queue and its worker together: what is written to the table reaches the
-- database (pkg/shockabsorber/drainer.go over internal/table/table_impl.go).
use shock_absorber.Prelude.{
  ℕ, ◌≤◌, ◌≡◌, refl, ap, ◌∙◌, sym, subst, Bool, true, false, List, [], ◌∷◌, map, Option, Error,
  Done, done, Exec, length, length-map, arith,
}
use shock_absorber.Core.{Value, Record, OperationType, create, update, delete, other}
use shock_absorber.Table.State.{TableImpl, World}
use shock_absorber.Table.Ops.{
  write_to_database, execute_write_operation, create_record, update_record, delete_record,
}
use shock_absorber.WriteBack.Memory.{MemoryQueue}
use shock_absorber.Drainer.{DrainerConfig, run}
use shock_absorber.Drainer.Loop.{Backends, memory_worker, execute_all, run_drains, turns}
use shock_absorber.Drainer.Tables.{
  memory_queue_ops, table_worker, into_table, execute_on, table_worker-Inside, run-Inside,
}
use shock_absorber.Drainer.Writes.{
  Write, creates, updates, deletes, write, write_all, accepted, queued, holds, ReadsOnly,
  write_all-queue,
}

module _ {S D : Type 0} (t : TableImpl S D MemoryQueue) where
  module _ (w : World S D MemoryQueue) where
    -- The same table switched off, over a database.
    abbrev off : D → World S D MemoryQueue
    off d = record w { enabled = false; db = d }

    -- A write to the table that is switched off does to the database what the worker does with its
    -- operation, and nothing else.
    write-off : (c : Write) (d : D) → (write t c (off d)).1 ≡ off (execute_on t w (queued t c) d).1
    unfolding write create_record update_record delete_record execute_on execute_write_operation
        write_to_database
    write-off (creates times r) d = ground arith
    write-off (updates times now key r) d = ground arith
    write-off (deletes times key) d = ground arith

    write_all-off :
        (cs : List Write) (d : D)
        → write_all t cs (off d) ≡ off (execute_all (execute_on t w) (map (queued t) cs) d)
    unfolding write_all
    write_all-off [] d = refl
    write_all-off (c ∷ cs) d =
        ap (write_all t cs) (write-off c d) ∙ write_all-off cs (execute_on t w (queued t c) d).1

  -- What a statement does to the database does not depend on the rest of the state.
  write_to_database-db :
      (o : OperationType) (key : Value) (payload : Option Record) (w w' : World S D MemoryQueue)
      (d : D)
      → let (r, v) = write_to_database t o key payload (record w { db = d }) in
        let (r', v') = write_to_database t o key payload (record w' { db = d }) in
        ◌≡◌ {A = Done × D} (r, v.db) (r', v'.db)
  unfolding write_to_database
  write_to_database-db create key payload w w' d = ground arith
  write_to_database-db update key payload w w' d = ground arith
  write_to_database-db delete key payload w w' d = ground arith
  write_to_database-db (other name) key payload w w' d = ground arith

  execute_on-any : (w w' : World S D MemoryQueue) → execute_on t w ≡ execute_on t w'
  unfolding execute_on execute_write_operation
  execute_on-any w w' = λ i op d. write_to_database-db op.operation op.key op.payload w w' d i

  -- The writes to a table whose queue is an empty in-memory one, and then as many turns of its worker
  -- as there are accepted writes, or more: the worker still runs, the queue is empty, and the database
  -- is as after the accepted writes, in their order, to the same table switched off. The worker's
  -- limiter lets every operation through, its contexts are not done, and queries change nothing.
  pub written_back :
      (wait : Exec (World S D MemoryQueue) (Unit {0})) (ends : Error → Bool)
      (config : DrainerConfig) (cs : List Write) (w : World S D MemoryQueue) (n k : ℕ)
      → ((v : World S D MemoryQueue) → wait v ≡ (done, v))
      → ReadsOnly t
      → t.write_queue ≡ memory_queue_ops
      → w.enabled ≡ true
      → w.queue ≡ holds n []
      → length (accepted t cs w) ≤ k
      → let (on, w') = run (table_worker t wait ends config) (turns k) (write_all t cs w) in
        (on ≡ true)
        × (w'.queue ≡ holds n [])
        × (w'.db ≡ (write_all t (accepted t cs w) (record w { enabled = false })).db)
  written_back wait ends config cs w n k passes only same on empty enough =
      let w1 = write_all t cs w in
      let ops = map (queued t) (accepted t cs w) in
      let (kept, holding_ops) = write_all-queue t cs w n [] only same on empty in
      let small = memory_worker (execute_on t w1) (λ b. (done, b)) ends config in
      let start : Backends D = record { memory = w1.queue; database = w1.db } in
      let inside =
        run-Inside (into_table t w1) small (table_worker t wait ends config)
          (table_worker-Inside t w1 wait ends config passes same) (turns k) start in
      let drained =
        ap (λ b. run small (turns k) b) (λ i. record { memory = holding_ops i; database = kept i })
        ∙ run_drains (execute_on t w1) (λ b. (done, b)) ends config (λ b. refl) false n k ops w.db
            (subst (λ m. m ≤ k) (sym (length-map (queued t) (accepted t cs w))) enough) in
      let ran = inside ∙ ap (λ p. (p.0, into_table t w1 p.1)) drained in
      (
        ap (λ p. p.0) ran,
        ap (λ p. p.1.queue) ran,
        ap (λ p. p.1.db) ran
            ∙ ap (λ e. execute_all e ops w.db) (execute_on-any w1 w)
            ∙ ap (λ v. v.db) (sym (write_all-off w (accepted t cs w) w.db)),
      )
