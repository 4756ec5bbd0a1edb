-- ===== src/Table/Ops.antt =====
-- The operations of `TableImpl`, internal/table/table_impl.go.
use shock_absorber.Prelude.{
  ℕ, String, Bool, true, false, not, ◌&&◌, Map, List, [], ◌∷◌, Option, none, some, errorf, lookup,
  insert, Result, ok, err, done, Exec, pure, fail, lift, wrapped, ◌>>=◌, ◌>>◌, sprintf,
  if◌then◌else◌,
}
use shock_absorber.Core.{
  Value, nil, Record, OperationType, create, update, delete, other, WriteOperation,
}
use shock_absorber.Store.{Bytes}
use shock_absorber.Database.{RowSet}
use shock_absorber.Table.State.{
  PendingRead, TableImpl, World, WalOperation, Times, on_kv, on_db, on_queue, build_key,
}
use mathlib.Core.Option as Option
use shock_absorber.Table.Reads.{is_in_flight, is_pending, cache_read, read_from_db}
use shock_absorber.Table.Wal.{append}

-- record[k] of a map that may be nil or lack the key
abbrev pub field_of : Option Record → String → Value
field_of none k = nil
field_of (some r) k = elim (lookup k r) [ none ↦ nil | some v ↦ v ]

-- for k, v := range updates { record[k] = v }
unfoldable pub merge : Record → Record → Record
merge r [] = r
merge r ((k, v) ∷ updates) = merge (insert k v r) updates

abbrev entries_of : Option Record → Record
entries_of none = []
entries_of (some r) = r

module _ {S D Q : Type 0} (t : TableImpl S D Q) where
  -- The DELETE statement of `writeToDatabase`.
  abbrev pub delete_query : String
  delete_query =
      sprintf ("DELETE FROM " ∷ t.table_name ∷ " WHERE " ∷ t.schema.primary_key ∷ " = ?" ∷ [])

  execute : String × List Value → Exec (World S D Q) (Unit {0})
  execute statement = do on_db (t.database.exec statement.0 statement.1); pure tt

  -- `writeToDatabase`
  unfoldable pub write_to_database :
      OperationType → Value → Option Record → Exec (World S D Q) (Unit {0})
  unfolding execute
  write_to_database create key payload = do
    statement ← lift (t.translator.to_db payload t.schema)
    execute statement
  write_to_database update key payload = do
    statement ← lift (t.translator.to_db_update key payload t.schema)
    execute statement
  write_to_database delete key payload = execute (delete_query, key ∷ [])
  write_to_database (other name) key payload =
      fail (errorf "unsupported operation type: %s" (name ∷ []))

  -- `readFromDatabase`
  row_of : RowSet → Result Record
  row_of rs = elim rs.rows [
    | [] ↦ err (errorf "record not found" [])
    | row ∷ rest ↦ t.translator.from_db row t.schema
  ]

  unfoldable pub read_from_database : Value → Exec (World S D Q) Record
  unfolding row_of
  read_from_database key = do
    rs ← on_db (
        t.database.query
          (sprintf
            ("SELECT * FROM " ∷ t.table_name ∷ " WHERE " ∷ t.schema.primary_key ∷ " = ?" ∷ []))
          (key ∷ []))
    lift (row_of rs)

  -- What `Create`, `Update` and `Delete` end with: the log entry, then the queue.
  unfoldable pub log_and_enqueue : Times → WalOperation → Exec (World S D Q) (Unit {0})
  log_and_enqueue times op = do
    wrapped "failed to append to WAL" [] (on_kv (append t.kv_store t.formats times op))
    wrapped "failed to enqueue write operation" [] (
        on_queue (
          t.write_queue.enqueue (record {
            table = t.table_name;
            operation = op.operation;
            key = op.key;
            payload = op.payload;
            timestamp = times.queue_time;
            retry_count = 0;
          })))

  abbrev pub wal_operation :
      Times → OperationType → Value → Option Record → String → Option Bytes → WalOperation
  wal_operation times operation key payload key_value value = record {
    operation_id = "";
    table = t.table_name;
    operation = operation;
    key = key;
    payload = payload;
    timestamp = times.wal_time;
    key_value = key_value;
    value = value;
  }

  unfoldable pub create_cached : Times → Option Record → Exec (World S D Q) (Unit {0})
  unfolding log_and_enqueue
  create_cached times r = do
    kv ← wrapped "failed to convert record to KV" [] (lift (t.translator.to_kv r t.schema))
    wrapped "failed to write to KV store" [] (on_kv (t.kv_store.set kv.0 kv.1 t.ttl))
    log_and_enqueue times
        (wal_operation times create (field_of r t.schema.primary_key) r kv.0 (some kv.1))

  -- `Create`
  unfoldable pub create_record : Times → Option Record → Exec (World S D Q) (Unit {0})
  unfolding create_cached write_to_database
  create_record times r w =
      if w.enabled then create_cached times r w else write_to_database create nil r w

  unfoldable pub or_fallback : Value → Result Record × World S D Q → Result Record × World S D Q
  or_fallback key (ok r, w) = (ok r, w)
  or_fallback key (err e, w) = read_from_db t key w

  -- `Read`
  unfoldable pub read : ℕ → Value → Exec (World S D Q) Record
  unfolding or_fallback cache_read read_from_db read_from_database
  read now key w =
      if w.enabled then or_fallback key (cache_read t now key w) else read_from_database key w

  -- `Update` changes the map that `Read` returned in place. A read that joins one in flight works on
  -- a copy. A read of its own shares the map with the entry that it settles, unless the entry is an
  -- expired one that was settled before; the fallback shares it with the goroutine that it has started.
  abbrev shares_entry : ℕ → String → World S D Q → Bool
  shares_entry now k w =
      not (is_in_flight now k w.pending)
      && elim (lookup k w.pending) [ none ↦ true | some p ↦ is_pending p ]

  abbrev merge_entry : Bool → String → Record → Map PendingRead → Map PendingRead
  merge_entry false k updates m = m
  merge_entry true k updates m = elim (lookup k m) [
    | none ↦ m
    | some p ↦ insert k (record p { result = Option.map (λ r. merge r updates) p.result }) m
  ]

  abbrev merge_added : List (Option Record) → Record → List (Option Record) → List (Option Record)
  merge_added before updates [] = []
  merge_added [] updates (r ∷ rs) = Option.map (λ x. merge x updates) r ∷ merge_added [] updates rs
  merge_added (b ∷ bs) updates (r ∷ rs) = r ∷ merge_added bs updates rs

  unfoldable pub merge_shared : ℕ → Value → Record → World S D Q → World S D Q → World S D Q
  unfolding is_in_flight build_key merge
  merge_shared now key updates before w = record w {
    pending =
        merge_entry (shares_entry now (build_key t key) before) (build_key t key) updates w.pending;
    background = merge_added before.background updates w.background;
  }

  unfoldable pub update_cached : Times → ℕ → Value → Option Record → Exec (World S D Q) (Unit {0})
  unfolding read log_and_enqueue merge merge_shared
  update_cached times now key updates before =
      (do
        r ← wrapped "failed to read record for update" [] (read now key)
        (λ w. (ok tt, merge_shared now key (entries_of updates) before w))
        kv ←
            wrapped "failed to convert record to KV" []
              (lift (t.translator.to_kv (some (merge r (entries_of updates))) t.schema))
        wrapped "failed to write to KV store" [] (on_kv (t.kv_store.set kv.0 kv.1 t.ttl))
        log_and_enqueue times (wal_operation times update key updates kv.0 (some kv.1)))
        before

  -- `Update`
  unfoldable pub update_record : Times → ℕ → Value → Option Record → Exec (World S D Q) (Unit {0})
  unfolding update_cached write_to_database
  update_record times now key updates w =
      if w.enabled
      then update_cached times now key updates w
      else write_to_database update key updates w

  unfoldable pub delete_cached : Times → Value → Exec (World S D Q) (Unit {0})
  unfolding log_and_enqueue build_key
  delete_cached times key = do
    wrapped "failed to delete from KV store" [] (on_kv (t.kv_store.delete (build_key t key)))
    log_and_enqueue times (wal_operation times delete key none (build_key t key) none)

  -- `Delete`
  unfoldable pub delete_record : Times → Value → Exec (World S D Q) (Unit {0})
  unfolding delete_cached write_to_database
  delete_record times key w =
      if w.enabled then delete_cached times key w else write_to_database delete key none w

  -- `FindByField`: the primary key of the row, then `Read`.
  unfoldable pub key_column : String → RowSet → Result Value
  key_column field rs = elim rs.rows [
    | [] ↦ err (errorf "record not found with %s = %v" (field ∷ []))
    | row ∷ rest ↦ elim row [ v ∷ [] ↦ ok v | _ ↦ err (errorf "failed to scan primary key: %w" []) ]
  ]

  unfoldable pub find_by_field : ℕ → String → Value → Exec (World S D Q) Record
  unfolding key_column read
  find_by_field now field value = do
    rs ← wrapped "failed to query database" [] (
        on_db (
          t.database.query
            (sprintf (
              "SELECT " ∷ t.schema.primary_key ∷ " FROM " ∷ t.table_name ∷ " WHERE " ∷ field
              ∷ " = ? LIMIT 1" ∷ []))
            (value ∷ [])))
    key ← lift (key_column field rs)
    read now key

  -- `EnableKV` and `DisableKV`
  unfoldable pub set_enabled : Bool → Exec (World S D Q) (Unit {0})
  set_enabled flag w = (done, record w { enabled = flag })

  -- `ExecuteWriteOperation`
  unfoldable pub execute_write_operation : WriteOperation → Exec (World S D Q) (Unit {0})
  unfolding write_to_database
  execute_write_operation op = write_to_database op.operation op.key op.payload
