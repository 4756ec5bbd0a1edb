-- ===== src/Table/Switch.antt =====
-- `Enabled` of a table: what each operation leaves alone, and when an operation is queued.
use shock_absorber.Prelude.{ℕ, ◌≡◌, refl, true, false, Option, none, Done, is_ok, arith, ◌⊎◌}
use shock_absorber.Core.{
  Value, Record, nil, OperationType, create, update, delete, other, WriteOperation,
}
use shock_absorber.Table.State.{TableImpl, World, Times, WalOperation}
use shock_absorber.Table.Reads.{cache_read, read_from_db, fetch}
use shock_absorber.Table.Ops.{
  or_fallback, write_to_database, execute_write_operation, create_record, create_cached,
  update_record, update_cached, delete_record, delete_cached, read, read_from_database,
  log_and_enqueue, field_of,
}

module _ {S D Q : Type 0} (t : TableImpl S D Q) where
  -- What a call may change: only the database.
  abbrev pub OnlyDatabase : World S D Q → World S D Q → Type 0
  OnlyDatabase w w' =
      (w'.enabled ≡ w.enabled)
      × (w'.kv ≡ w.kv)
      × (w'.queue ≡ w.queue)
      × (w'.pending ≡ w.pending)
      × (w'.background ≡ w.background)

  write_to_database_only :
      (o : OperationType) (key : Value) (r : Option Record) (w : World S D Q)
      → OnlyDatabase w (write_to_database t o key r w).1
  unfolding write_to_database
  write_to_database_only create key r w = ground arith
  write_to_database_only update key r w = ground arith
  write_to_database_only delete key r w = ground arith
  write_to_database_only (other n) key r w = ground arith

  create-disabled :
      (times : Times) (r : Option Record) (w : World S D Q)
      → w.enabled ≡ false
      → create_record t times r w ≡ write_to_database t create nil r w
  unfolding create_record
  create-disabled times r w off = simp off

  update-disabled :
      (times : Times) (now : ℕ) (key : Value) (r : Option Record) (w : World S D Q)
      → w.enabled ≡ false
      → update_record t times now key r w ≡ write_to_database t update key r w
  unfolding update_record
  update-disabled times now key r w off = simp off

  delete-disabled :
      (times : Times) (key : Value) (w : World S D Q)
      → w.enabled ≡ false
      → delete_record t times key w ≡ write_to_database t delete key none w
  unfolding delete_record
  delete-disabled times key w off = simp off

  read-disabled :
      (now : ℕ) (key : Value) (w : World S D Q)
      → w.enabled ≡ false
      → read t now key w ≡ read_from_database t key w
  unfolding read
  read-disabled now key w off = simp off

  read_from_database_only :
      (key : Value) (w : World S D Q) → OnlyDatabase w (read_from_database t key w).1
  unfolding read_from_database
  read_from_database_only key w = ground arith

  pub create-enabled :
      (times : Times) (r : Option Record) (w : World S D Q)
      → w.enabled ≡ true
      → create_record t times r w ≡ create_cached t times r w
  unfolding create_record
  create-enabled times r w on = simp on

  pub update-enabled :
      (times : Times) (now : ℕ) (key : Value) (r : Option Record) (w : World S D Q)
      → w.enabled ≡ true
      → update_record t times now key r w ≡ update_cached t times now key r w
  unfolding update_record
  update-enabled times now key r w on = simp on

  pub delete-enabled :
      (times : Times) (key : Value) (w : World S D Q)
      → w.enabled ≡ true
      → delete_record t times key w ≡ delete_cached t times key w
  unfolding delete_record
  delete-enabled times key w on = simp on

  -- The entry of the queue that stands for a write.
  abbrev pub queued_operation : Times → OperationType → Value → Option Record → WriteOperation
  queued_operation times operation key payload = record {
    table = t.table_name;
    operation = operation;
    key = key;
    payload = payload;
    timestamp = times.queue_time;
    retry_count = 0;
  }

  execute-queued :
      (times : Times) (now : ℕ) (key : Value) (r : Option Record) (w : World S D Q)
      → (execute_write_operation t
            (queued_operation times create (field_of r t.schema.primary_key) r)
            w
          ≡ write_to_database t create nil r w)
        × (execute_write_operation t (queued_operation times update key r) w
            ≡ write_to_database t update key r w)
        × (execute_write_operation t (queued_operation times delete key none) w
            ≡ write_to_database t delete key none w)
  unfolding execute_write_operation write_to_database
  execute-queued times now key r w = (refl, refl, refl)

  -- On a disabled table each of the three writes returns and does what `ExecuteWriteOperation` would
  -- with the operation that the same call on the enabled table queues; and these writes and `Read`
  -- change the database only: the cache, the log, the queue, the in-flight reads and the waiting
  -- goroutines stay as they were.
  pub disabled_bypasses :
      (times : Times) (now : ℕ) (key : Value) (r : Option Record) (w : World S D Q)
      → w.enabled ≡ false
      → OnlyDatabase w (create_record t times r w).1
        × OnlyDatabase w (read t now key w).1
        × OnlyDatabase w (update_record t times now key r w).1
        × OnlyDatabase w (delete_record t times key w).1
        × (create_record t times r w
            ≡ execute_write_operation t
                (queued_operation times create (field_of r t.schema.primary_key) r)
                w)
        × (update_record t times now key r w
            ≡ execute_write_operation t (queued_operation times update key r) w)
        × (delete_record t times key w
            ≡ execute_write_operation t (queued_operation times delete key none) w)
  disabled_bypasses times now key r w off =
      let (created, updated, deleted) = execute-queued times now key r w in
      rw
        (
          created,
          updated,
          deleted,
          create-disabled times r w off,
          update-disabled times now key r w off,
          delete-disabled times key w off,
          read-disabled now key w off,
        )
        (
          write_to_database_only create nil r w,
          read_from_database_only key w,
          write_to_database_only update key r w,
          write_to_database_only delete key none w,
          refl,
          refl,
          refl,
        )

  -- The call enqueued this operation, and failed exactly if the queue did not take it; or it failed
  -- before it came to the queue.
  abbrev pub QueuedOrFailed : WriteOperation → World S D Q → Done × World S D Q → Type 0
  QueuedOrFailed op w (r, w') =
      ((w'.queue ≡ (t.write_queue.enqueue op w.queue).1)
        × (is_ok r ≡ is_ok (t.write_queue.enqueue op w.queue).0))
      ⊎ ((is_ok r ≡ false) × (w'.queue ≡ w.queue))

  log_and_enqueue-queued :
      (times : Times) (op : WalOperation) (w : World S D Q)
      → QueuedOrFailed
          (queued_operation times op.operation op.key op.payload)
          w
          (log_and_enqueue t times op w)
  unfolding log_and_enqueue
  log_and_enqueue-queued times op w = ground arith

  create_cached-queued :
      (times : Times) (r : Option Record) (w : World S D Q)
      → QueuedOrFailed
          (queued_operation times create (field_of r t.schema.primary_key) r)
          w
          (create_cached t times r w)
        × ((create_cached t times r w).1.db ≡ w.db)
  unfolding create_cached log_and_enqueue
  create_cached-queued times r w = ground arith

  delete_cached-queued :
      (times : Times) (key : Value) (w : World S D Q)
      → QueuedOrFailed (queued_operation times delete key none) w (delete_cached t times key w)
        × ((delete_cached t times key w).1.db ≡ w.db)
  unfolding delete_cached log_and_enqueue
  delete_cached-queued times key w = ground arith

  read-queue : (now : ℕ) (key : Value) (w : World S D Q) → (read t now key w).1.queue ≡ w.queue
  unfolding read or_fallback cache_read read_from_db fetch read_from_database
  read-queue now key w = ground arith

  update_cached-queued :
      (times : Times) (now : ℕ) (key : Value) (updates : Option Record) (w : World S D Q)
      → QueuedOrFailed
          (queued_operation times update key updates)
          w
          (update_cached t times now key updates w)
  unfolding update_cached log_and_enqueue
  update_cached-queued times now key updates w = ground (arith, read-queue now key w)

  -- On an enabled table a write is queued at most once and last: `Create`, `Update` and `Delete`
  -- either hand the queue exactly one entry, with the operation, its key and its payload, and then
  -- fail exactly if the queue refuses it, or they fail and leave the queue as it was. `Create` and
  -- `Delete` do not touch the database.
  pub enabled_queues :
      (times : Times) (now : ℕ) (key : Value) (r : Option Record) (w : World S D Q)
      → w.enabled ≡ true
      → QueuedOrFailed
          (queued_operation times create (field_of r t.schema.primary_key) r)
          w
          (create_record t times r w)
        × QueuedOrFailed (queued_operation times update key r) w (update_record t times now key r w)
        × QueuedOrFailed (queued_operation times delete key none) w (delete_record t times key w)
        × ((create_record t times r w).1.db ≡ w.db)
        × ((delete_record t times key w).1.db ≡ w.db)
  enabled_queues times now key r w on =
      let (created, kept) = create_cached-queued times r w in
      let (deleted, kept') = delete_cached-queued times key w in
      rw
        (
          create-enabled times r w on,
          update-enabled times now key r w on,
          delete-enabled times key w on,
        )
        (created, update_cached-queued times now key r w, deleted, kept, kept')
