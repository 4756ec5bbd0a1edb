-- ===== src/Drainer/Writes.antt =====
-- The writes to a table with an in-memory queue, and what they leave in the queue: Create, Update and
-- Delete of internal/table/table_impl.go over internal/writeback/memory_queue.go.
use shock_absorber.Prelude.{
  ℕ, String, ltb, Bool-cases, append-nil, append_assoc, ◌≡◌, refl, ap, ◌∙◌, sym, Bool, true, false,
  List, [], ◌∷◌, ◌++◌, map, Option, none, some, inl, inr, is_ok, Done, if◌then◌else◌, length, arith,
}
use shock_absorber.Core.{Value, nil, Record, WriteOperation, create, update, delete}
use shock_absorber.Table.State.{TableImpl, World, Times}
use shock_absorber.Table.Ops.{
  create_record, create_cached, update_record, update_cached, delete_record, delete_cached,
  log_and_enqueue, read, or_fallback, read_from_database, field_of,
}
use shock_absorber.Table.Reads.{cache_read, fetch, read_from_db, build_select_query}
use mathlib.Core.List.{map-append}
use shock_absorber.Table.Switch.{
  queued_operation, QueuedOrFailed, enabled_queues, create-enabled, update-enabled, delete-enabled,
}
use shock_absorber.WriteBack.Memory.{MemoryQueue, enqueue}
use shock_absorber.Drainer.Tables.{memory_queue_ops}

-- A call that writes.
pub data Write : Type 0 where
  creates : Times → Option Record → Write
  updates : Times → ℕ → Value → Option Record → Write
  deletes : Times → Value → Write

-- A queue of a size, with operations.
abbrev pub holds : ℕ → List WriteOperation → MemoryQueue
holds n ops = record { queue = map some ops; closed = false; size = n }

module _ {S D : Type 0} (t : TableImpl S D MemoryQueue) where
  unfoldable pub write : Write → World S D MemoryQueue → Done × World S D MemoryQueue
  write (creates times r) = create_record t times r
  write (updates times now key r) = update_record t times now key r
  write (deletes times key) = delete_record t times key

  -- Every write, whether or not the one before it failed.
  unfoldable pub write_all : List Write → World S D MemoryQueue → World S D MemoryQueue
  write_all [] w = w
  write_all (c ∷ cs) w = write_all cs (write c w).1

  -- The writes that returned no error.
  unfoldable pub accepted : List Write → World S D MemoryQueue → List Write
  accepted [] w = []
  accepted (c ∷ cs) w =
      let rest = accepted cs (write c w).1 in if is_ok (write c w).0 then c ∷ rest else rest

  abbrev pub queued : Write → WriteOperation
  queued (creates times r) = queued_operation t times create (field_of r t.schema.primary_key) r
  queued (updates times now key r) = queued_operation t times update key r
  queued (deletes times key) = queued_operation t times delete key none

  enqueue_holds :
      (op : WriteOperation) (n : ℕ) (ops : List WriteOperation)
      → let (r, q) = enqueue false true (some op) (holds n ops) in
        q ≡ holds n (ops ++ (if is_ok r then op ∷ [] else []))
  unfolding enqueue
  enqueue_holds op n ops = elim (Bool-cases (ltb (length (map some ops)) n)) [
    | inl room ↦ rw (room, map-append) refl
    | inr full ↦ rw (full, append-nil) refl
  ]

  queue_after :
      (op : WriteOperation) (w : World S D MemoryQueue) (p : Done × World S D MemoryQueue) (n : ℕ)
      (ops : List WriteOperation)
      → t.write_queue ≡ memory_queue_ops
      → w.queue ≡ holds n ops
      → QueuedOrFailed t op w p
      → p.1.queue ≡ holds n (ops ++ (if is_ok p.0 then op ∷ [] else []))
  queue_after op w p n ops same holding (inl (q, e)) =
      q
      ∙ ap (λ f. (f op w.queue).1) (ap (λ o. o.enqueue) same)
      ∙ ap (λ v. (enqueue false true (some op) v).1) holding
      ∙ enqueue_holds op n ops
      ∙ ap (λ b. holds n (ops ++ (if b then op ∷ [] else [])))
          (sym (
            e
            ∙ ap (λ f. is_ok (f op w.queue).0) (ap (λ o. o.enqueue) same)
            ∙ ap (λ v. is_ok (enqueue false true (some op) v).0) holding))
  queue_after op w p n ops same holding (inr (failed, q)) =
      q ∙ holding ∙ rw (failed, append-nil) refl

  -- A query of the database changes nothing.
  abbrev pub ReadsOnly : Type 0
  ReadsOnly = (query : String) (args : List Value) (d : D) → (t.database.query query args d).1 ≡ d

  read-db :
      (now : ℕ) (key : Value) (w : World S D MemoryQueue)
      → ReadsOnly
      → w.enabled ≡ true
      → ((read t now key w).1.db ≡ w.db) × ((read t now key w).1.enabled ≡ true)
  unfolding read or_fallback cache_read read_from_db fetch read_from_database
  read-db now key w only on = ground (arith, only (build_select_query t) (key ∷ []) w.db)

  update_cached-kept :
      (times : Times) (now : ℕ) (key : Value) (r : Option Record) (w : World S D MemoryQueue)
      → ReadsOnly
      → w.enabled ≡ true
      → ((update_cached t times now key r w).1.db ≡ w.db)
        × ((update_cached t times now key r w).1.enabled ≡ true)
  unfolding update_cached log_and_enqueue
  update_cached-kept times now key r w only on = ground (arith, read-db now key w only on)

  create_cached-kept :
      (times : Times) (r : Option Record) (w : World S D MemoryQueue)
      → ((create_cached t times r w).1.db ≡ w.db)
        × ((create_cached t times r w).1.enabled ≡ w.enabled)
  unfolding create_cached log_and_enqueue
  create_cached-kept times r w = ground arith

  delete_cached-kept :
      (times : Times) (key : Value) (w : World S D MemoryQueue)
      → ((delete_cached t times key w).1.db ≡ w.db)
        × ((delete_cached t times key w).1.enabled ≡ w.enabled)
  unfolding delete_cached log_and_enqueue
  delete_cached-kept times key w = ground arith

  write-kept :
      (c : Write) (w : World S D MemoryQueue)
      → ReadsOnly
      → w.enabled ≡ true
      → ((write c w).1.db ≡ w.db) × ((write c w).1.enabled ≡ true)
  unfolding write
  write-kept (creates times r) w only on =
      let (kept, still) = create_cached-kept times r w in
      rw (create-enabled t times r w on) (kept, still ∙ on)
  write-kept (updates times now key r) w only on =
      rw (update-enabled t times now key r w on) (update_cached-kept times now key r w only on)
  write-kept (deletes times key) w only on =
      let (kept, still) = delete_cached-kept times key w in
      rw (delete-enabled t times key w on) (kept, still ∙ on)

  write-queued :
      (c : Write) (w : World S D MemoryQueue)
      → w.enabled ≡ true
      → QueuedOrFailed t (queued c) w (write c w)
  unfolding write
  write-queued (creates times r) w on =
      let (q, _, _, _, _) = enabled_queues t times 0 nil r w on in q
  write-queued (updates times now key r) w on =
      let (_, q, _, _, _) = enabled_queues t times now key r w on in q
  write-queued (deletes times key) w on =
      let (_, _, q, _, _) = enabled_queues t times 0 key none w on in q

  queued_next :
      (b : Bool) (c : Write) (ops : List WriteOperation) (rest : List Write)
      → (ops ++ (if b then queued c ∷ [] else [])) ++ map queued rest
        ≡ ops ++ map queued (if b then c ∷ rest else rest)
  queued_next true c ops rest = append_assoc ops (queued c ∷ []) (map queued rest)
  queued_next false c ops rest = rw append-nil refl

  -- What the writes leave in the queue: the accepted ones, in order.
  pub write_all-queue :
      (cs : List Write) (w : World S D MemoryQueue) (n : ℕ) (ops : List WriteOperation)
      → ReadsOnly
      → t.write_queue ≡ memory_queue_ops
      → w.enabled ≡ true
      → w.queue ≡ holds n ops
      → ((write_all cs w).db ≡ w.db)
        × ((write_all cs w).queue ≡ holds n (ops ++ map queued (accepted cs w)))
  unfolding write_all accepted
  write_all-queue [] w n ops only same on holding = (refl, holding ∙ rw append-nil refl)
  write_all-queue (c ∷ cs) w n ops only same on holding =
      let (kept, still) = write-kept c w only on in
      let one = queue_after (queued c) w (write c w) n ops same holding (write-queued c w on) in
      let (kept', rest) =
        write_all-queue cs (write c w).1 n
          (ops ++ (if is_ok (write c w).0 then queued c ∷ [] else [])) only same still one in
      (
        kept' ∙ kept,
        rest ∙ ap (holds n) (queued_next (is_ok (write c w).0) c ops (accepted cs (write c w).1)),
      )
