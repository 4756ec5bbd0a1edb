-- ===== src/Table/Cache.antt =====
-- What reads see after writes, over a KV store that answers (`KvLaws`).
use shock_absorber.Prelude.{
  ℕ, String, ◌≡◌, ◌≢◌, refl, ap, ◌∙◌, true, false, [], ◌∷◌, ◌++◌, Option, none, some, Result, ok,
  err, Result-cases, inl, inr, arith, and_then, wrap, eq_iff, eq_refl,
}
use shock_absorber.Core.{Value, Record, create}
use shock_absorber.Store.{Bytes, KvLaws}
use shock_absorber.Table.State.{TableImpl, World, Times, WalOperation, build_key}
use shock_absorber.Table.Wal.{
  append, append_filled, filled_in, wal_entry_key, timestamp_key, one_day,
}
use shock_absorber.Table.Reads.{
  cache_read, read_from_db, fetch, is_in_flight, first_row, build_select_query,
}
use shock_absorber.Table.Ops.{
  or_fallback, create_record, create_cached, delete_cached, read, log_and_enqueue, field_of,
  wal_operation,
}
use shock_absorber.Table.Switch.{create-enabled}

module _ {S D Q : Type 0} (t : TableImpl S D Q) where
  -- The keys under which the log entry of an operation is stored are not `key`.
  abbrev pub LogApart : Times → WalOperation → String → Type 0
  LogApart times op key =
      let filled = filled_in t.formats times op in
      (wal_entry_key filled.table filled.operation_id ≢ key)
      × (timestamp_key t.formats filled ≢ key)

  -- What the fallback answers from the database.
  abbrev pub database_answer : Value → D → Result Record
  database_answer key d =
      and_then
        (wrap "database query failed" [] (t.database.query (build_select_query t) (key ∷ []) d).0)
        (first_row t key)

module _ {S D Q : Type 0} (t : TableImpl S D Q) (contents : S → String → Option Bytes)
    (laws : KvLaws t.kv_store contents) where
  append_filled-contents :
      (op : WalOperation) (key : String) (s : S)
      → wal_entry_key op.table op.operation_id ≢ key
      → timestamp_key t.formats op ≢ key
      → contents (append_filled t.kv_store t.formats op s).1 key ≡ contents s key
  unfolding append_filled
  append_filled-contents op key s h k = elim (Result-cases (t.formats.encode_wal op)) [
    | inl (bytes, e) ↦
        let entry = wal_entry_key op.table op.operation_id in
        ground (
          arith,
          e,
          laws.set_ok entry bytes one_day s,
          laws.set_contents entry key bytes one_day s,
          laws.set_contents (timestamp_key t.formats op) key (t.formats.text_bytes op.operation_id)
              one_day (t.kv_store.set entry bytes one_day s).1,
          eq_iff entry key,
          eq_iff (timestamp_key t.formats op) key,
        )
    | inr (x, e) ↦ rw (e, append_filled) refl
  ]

  -- The log and the queue leave the record's key alone.
  pub log_and_enqueue-contents :
      (times : Times) (op : WalOperation) (key : String) (w : World S D Q)
      → LogApart t times op key
      → contents (log_and_enqueue t times op w).1.kv key ≡ contents w.kv key
  unfolding log_and_enqueue append
  log_and_enqueue-contents times op key w (h, k) =
      ground (arith, append_filled-contents (filled_in t.formats times op) key w.kv h k)

  pub create_cached-contents :
      (times : Times) (r : Option Record) (key : String) (bytes : Bytes) (w : World S D Q)
      → t.translator.to_kv r t.schema ≡ ok (key, bytes)
      → LogApart t times
          (wal_operation t times create (field_of r t.schema.primary_key) r key (some bytes))
          key
      → contents (create_cached t times r w).1.kv key ≡ some bytes
  unfolding create_cached
  create_cached-contents times r key bytes w e apart = ground (
    arith,
    e,
    laws.set_ok key bytes t.ttl w.kv,
    laws.set_contents key key bytes t.ttl w.kv,
    eq_refl key,
    log_and_enqueue-contents times
        (wal_operation t times create (field_of r t.schema.primary_key) r key (some bytes)) key
        (record w { kv = (t.kv_store.set key bytes t.ttl w.kv).1 }) apart,
  )

  pub create_cached-others :
      (times : Times) (r : Option Record) (key j : String) (bytes : Bytes) (w : World S D Q)
      → t.translator.to_kv r t.schema ≡ ok (key, bytes)
      → key ≢ j
      → LogApart t times
          (wal_operation t times create (field_of r t.schema.primary_key) r key (some bytes))
          j
      → contents (create_cached t times r w).1.kv j ≡ contents w.kv j
  unfolding create_cached
  create_cached-others times r key j bytes w e h apart = ground (
    arith,
    e,
    laws.set_ok key bytes t.ttl w.kv,
    laws.set_contents key j bytes t.ttl w.kv,
    eq_iff key j,
    log_and_enqueue-contents times
        (wal_operation t times create (field_of r t.schema.primary_key) r key (some bytes)) j
        (record w { kv = (t.kv_store.set key bytes t.ttl w.kv).1 }) apart,
  )

  pub create_cached-rest :
      (times : Times) (r : Option Record) (w : World S D Q)
      → let w' = (create_cached t times r w).1 in
        (w'.pending ≡ w.pending)
        × (w'.enabled ≡ w.enabled)
        × (w'.background ≡ w.background)
        × (w'.db ≡ w.db)
  unfolding create_cached log_and_enqueue
  create_cached-rest times r w = ground arith

  pub delete_cached-rest :
      (times : Times) (key : Value) (w : World S D Q)
      → let w' = (delete_cached t times key w).1 in
        (w'.pending ≡ w.pending)
        × (w'.enabled ≡ w.enabled)
        × (w'.background ≡ w.background)
        × (w'.db ≡ w.db)
  unfolding delete_cached log_and_enqueue
  delete_cached-rest times key w = ground arith

  read-hit :
      (now : ℕ) (key : Value) (bytes : Bytes) (r : Record) (w : World S D Q)
      → w.enabled ≡ true
      → is_in_flight now (build_key t key) w.pending ≡ false
      → contents w.kv (build_key t key) ≡ some bytes
      → t.translator.from_kv (build_key t key) bytes t.schema ≡ ok r
      → (read t now key w).0 ≡ ok r
  unfolding read cache_read fetch or_fallback
  read-hit now key bytes r w on calm e f =
      ground (arith, laws.get_present (build_key t key) bytes w.kv e)

  pub read-miss :
      (now : ℕ) (key : Value) (w : World S D Q)
      → w.enabled ≡ true
      → is_in_flight now (build_key t key) w.pending ≡ false
      → contents w.kv (build_key t key) ≡ none
      → let (r, w') = read t now key w in
        (r ≡ database_answer t key w.db)
        × (w'.kv ≡ w.kv)
        × (w'.background ≡ elim (database_answer t key w.db) [
          | ok a ↦ w.background ++ some a ∷ []
          | err e ↦ w.background
        ])
  unfolding read cache_read fetch or_fallback read_from_db
  read-miss now key w on calm e =
      let (x, f) = laws.get_absent (build_key t key) w.kv e in ground arith

  -- Read-your-writes on an enabled table: after `Create` of a record that the translator stores
  -- under the key that reads build, the `Read` of that key returns what the stored text decodes to,
  -- whether or not the log and the queue took the operation, unless a read of the key is in flight
  -- or the log entry has the same key.
  pub create_then_read :
      (times : Times) (now : ℕ) (key : Value) (r : Option Record) (bytes : Bytes) (decoded : Record)
      (w : World S D Q)
      → w.enabled ≡ true
      → is_in_flight now (build_key t key) w.pending ≡ false
      → t.translator.to_kv r t.schema ≡ ok (build_key t key, bytes)
      → t.translator.from_kv (build_key t key) bytes t.schema ≡ ok decoded
      → LogApart t times
          (wal_operation t times create
            (field_of r t.schema.primary_key)
            r
            (build_key t key)
            (some bytes))
          (build_key t key)
      → (read t now key (create_record t times r w).1).0 ≡ ok decoded
  create_then_read times now key r bytes decoded w on calm e f apart =
      let (pending, enabled, _, _) = create_cached-rest times r w in
      rw (create-enabled t times r w on) (
        read-hit now key bytes decoded (create_cached t times r w).1 (enabled ∙ on)
          (ap (is_in_flight now (build_key t key)) pending ∙ calm)
          (create_cached-contents times r (build_key t key) bytes w e apart) f)
