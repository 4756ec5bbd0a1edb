-- ===== src/Tests/WrittenBack.antt =====
-- A table with an in-memory queue for one operation, and the theorem on its worker at it.
use shock_absorber.Prelude.{ℕ, pos, ◌≡◌, refl, true, false, [], ◌∷◌, List, some, done, arith}
use shock_absorber.Table.State.{TableImpl, World}
use shock_absorber.Table.Ops.{create_record, create_cached, delete_record}
use shock_absorber.Table.Wal.{append}
use shock_absorber.WriteBack.Memory.{MemoryQueue, enqueue}
use shock_absorber.Drainer.{run, default_drainer_config}
use shock_absorber.Drainer.Tables.{memory_queue_ops, table_worker}
use shock_absorber.Drainer.Writes.{Write, creates, deletes, write, write_all, accepted, holds}
use shock_absorber.Drainer.WrittenBack.{written_back}
use shock_absorber.Tests.Servers.{Keys, memory_kv, users_schema}
use shock_absorber.Tests.Tables.{
  sample_formats, sample_translator, sample_database, no_keys, times, key, user,
}

abbrev small_table : TableImpl Keys ℕ MemoryQueue
small_table = record {
  table_name = "users";
  schema = users_schema;
  kv_store = memory_kv;
  database = sample_database;
  translator = sample_translator;
  write_queue = memory_queue_ops;
  formats = sample_formats;
  ttl = pos 1;
  namespace = "";
}

abbrev fresh : World Keys ℕ MemoryQueue
fresh = record {
  enabled = true;
  kv = no_keys;
  db = 0;
  queue = holds 1 [];
  pending = [];
  background = [];
}

abbrev two_writes : List Write
two_writes = creates times (some user) ∷ deletes times key ∷ []

-- The queue refuses the second write.
two_writes-accepted : accepted small_table two_writes fresh ≡ creates times (some user) ∷ []
unfolding accepted write create_record create_cached delete_record append enqueue
two_writes-accepted = refl

written_back_example :
    let (on, w) =
      run
        (table_worker small_table (λ v. (done, v)) (λ e. false) default_drainer_config)
        (false ∷ [])
        (write_all small_table two_writes fresh) in
    (on ≡ true)
    × (w.queue ≡ holds 1 [])
    × (w.db
        ≡ (write_all small_table
            (accepted small_table two_writes fresh)
            (record fresh { enabled = false })).db)
written_back_example =
    written_back small_table (λ v. (done, v)) (λ e. false) default_drainer_config two_writes fresh 1
      1 (λ v. refl) (λ query args d. refl) refl refl refl (rw two_writes-accepted (omega arith))
