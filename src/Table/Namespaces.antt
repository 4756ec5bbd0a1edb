-- ===== src/Table/Namespaces.antt =====
-- `BuildKey` of internal/read/cache_handler.go and the key that the translator writes: what follows
-- when they differ. `Translator.ToKV` of internal/schema/translator.go leaves out the namespace.
use shock_absorber.Prelude.{
  ℕ, String, ◌≡◌, ◌≢◌, ap, ◌∙◌, true, false, Option, none, some, ok, arith, eq_iff,
}
use shock_absorber.Core.{Value, Record, create, delete}
use shock_absorber.Store.{Bytes, KvLaws}
use shock_absorber.Table.State.{TableImpl, World, Times, build_key}
use shock_absorber.Table.Reads.{is_in_flight}
use shock_absorber.Table.Ops.{
  create_record, create_cached, delete_record, read, field_of, wal_operation,
}
use shock_absorber.Table.Switch.{create-enabled, delete-enabled}
use shock_absorber.Table.Cache.{
  LogApart, create_cached-contents, create_cached-others, create_cached-rest, read-miss,
  database_answer,
}
use shock_absorber.Table.Stale.{delete_cached-contents}

module _ {S D Q : Type 0} (t : TableImpl S D Q) (contents : S → String → Option Bytes)
    (laws : KvLaws t.kv_store contents) where
  -- On an enabled table whose translator stores a record under another key than reads build, where
  -- nothing stands under the key that reads build, no read of it is in flight and the log's keys
  -- are others: `Read` after `Create` is answered by the database as it was before, although the
  -- record is stored, and `Delete` after `Create` leaves the record in the store.
  pub foreign_key_missed :
      (times : Times) (now : ℕ) (key : Value) (r : Option Record) (stored : String) (bytes : Bytes)
      (w : World S D Q)
      → w.enabled ≡ true
      → stored ≢ build_key t key
      → t.translator.to_kv r t.schema ≡ ok (stored, bytes)
      → is_in_flight now (build_key t key) w.pending ≡ false
      → contents w.kv (build_key t key) ≡ none
      → LogApart t times
          (wal_operation t times create (field_of r t.schema.primary_key) r stored (some bytes))
          stored
      → LogApart t times
          (wal_operation t times create (field_of r t.schema.primary_key) r stored (some bytes))
          (build_key t key)
      → LogApart t times (wal_operation t times delete key none (build_key t key) none) stored
      → let created = (create_record t times r w).1 in
        (contents created.kv stored ≡ some bytes)
        × ((read t now key created).0 ≡ database_answer t key w.db)
        × (contents (delete_record t times key created).1.kv stored ≡ some bytes)
  foreign_key_missed times now key r stored bytes w on apart e calm absent log log' log'' =
      let w1 = (create_cached t times r w).1 in
      let (pending, enabled, background, same) = create_cached-rest t contents laws times r w in
      let kept = create_cached-contents t contents laws times r stored bytes w e log in
      let missed : contents w1.kv (build_key t key) ≡ none =
        create_cached-others t contents laws times r stored (build_key t key) bytes w e apart log'
        ∙ absent in
      rw (create-enabled t times r w on, delete-enabled t times key w1 (enabled ∙ on))
        (
          kept,
          (read-miss t contents laws now key w1 (enabled ∙ on)
                (ap (is_in_flight now (build_key t key)) pending ∙ calm) missed).0
              ∙ ap (database_answer t key) same,
          ground (
            arith,
            delete_cached-contents t contents laws times key stored w1 log'',
            kept,
            eq_iff (build_key t key) stored,
          ),
        )
