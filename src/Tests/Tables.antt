-- ===== src/Tests/Tables.antt =====
-- The theorems on tables, at a table of users over the stores of Tests/Servers.antt.
use shock_absorber.Prelude.{
  ℕ, ◌+◌, String, pos, ◌≡◌, ◌≢◌, refl, Bool, true, false, List, [], ◌∷◌, ◌++◌, none, some, ok, done,
  lookup, insert, eq_iff, arith, length,
}
use shock_absorber.Core.{Value, string, Record, WriteOperation, create, update, delete}
use shock_absorber.Store.{Bytes}
use shock_absorber.Database.{DbOps, SchemaTranslator, scan}
use shock_absorber.Table.State.{WalOperation, TableImpl, World, Times, Formats, QueueOps, build_key}
use shock_absorber.Table.Log.{append_then_get}
use shock_absorber.Table.Wal.{
  append, acknowledge, is_acknowledged, get_operation, generate_operation_id, filled_in,
}
use shock_absorber.Table.Reads.{is_in_flight, run_background, first_row, scan_row, name_values}
use shock_absorber.Table.Ops.{
  create_record, read, update_record, delete_record, execute_write_operation, field_of,
}
use shock_absorber.Table.Switch.{
  disabled_bypasses, enabled_queues, OnlyDatabase, QueuedOrFailed, queued_operation,
}
use shock_absorber.Table.Cache.{create_then_read}
use shock_absorber.Table.Stale.{delete_then_read_restores}
use shock_absorber.Tests.Servers.{Keys, memory_kv, memory_kv_laws, stored, put, users_schema}

abbrev pub text_of : Value → String
text_of (string s) = s
text_of v = "other"

abbrev pub user : Record
user = ("id", string "1") ∷ []

abbrev pub text : Bytes
text = 3 ∷ 4 ∷ []

abbrev pub logged : WalOperation
logged = record {
  operation_id = "users_1_0";
  table = "users";
  operation = create;
  key = string "1";
  payload = some user;
  timestamp = 5;
  key_value = "users:1";
  value = some text;
}

abbrev pub sample_formats : Formats
sample_formats = record {
  value_text = text_of;
  decimal = λ n. "0";
  text_bytes = λ s. 1 ∷ [];
  encode_wal = λ op. ok (2 ∷ []);
  decode_wal = λ b. ok logged;
}

-- The database holds one row, of the user, whatever is asked; statements are counted.
abbrev pub sample_database : DbOps ℕ
sample_database = record {
  query = λ q args n. (ok (record { rows = (string "1" ∷ []) ∷ []; error = none }), n);
  exec = λ q args n. (ok 1, n + 1);
}

abbrev pub sample_translator : SchemaTranslator
sample_translator = record {
  to_kv = λ r schema. ok ("users:1", text);
  from_kv = λ key bytes schema. ok user;
  to_db = λ r schema. ok ("INSERT", []);
  to_db_update = λ key r schema. ok ("UPDATE", []);
  from_db = λ row schema. ok user;
}

abbrev pub sample_queue_ops : QueueOps (List WriteOperation)
sample_queue_ops = record {
  enqueue = λ op q. (done, q ++ op ∷ []);
  dequeue = λ n q. ((q, none), []);
  size = λ q. length q;
}

abbrev table_in : String → TableImpl Keys ℕ (List WriteOperation)
table_in namespace = record {
  table_name = "users";
  schema = users_schema;
  kv_store = memory_kv;
  database = sample_database;
  translator = sample_translator;
  write_queue = sample_queue_ops;
  formats = sample_formats;
  ttl = pos 1;
  namespace = namespace;
}

abbrev pub no_keys : Keys
no_keys k = none

abbrev world : Bool → Keys → World Keys ℕ (List WriteOperation)
world enabled keys = record {
  enabled = enabled;
  kv = keys;
  db = 0;
  queue = [];
  pending = [];
  background = [];
}

abbrev pub times : Times
times = record { wal_time = 5; id_time = 6; queue_time = 7 }

abbrev pub key : Value
key = string "1"

abbrev users : TableImpl Keys ℕ (List WriteOperation)
users = table_in ""

entry_apart : ◌≢◌ {A = String} "wal:users:entry:users_1_0" "users:1"
entry_apart = ground (arith, eq_iff "wal:users:entry:users_1_0" "users:1")

index_apart : ◌≢◌ {A = String} "wal:users:timestamp:0:users_1_0" "users:1"
index_apart = ground (arith, eq_iff "wal:users:timestamp:0:users_1_0" "users:1")

create_then_read_example :
    (read users 10 key (create_record users times (some user) (world true no_keys)).1).0 ≡ ok user
unfolding build_key is_in_flight lookup filled_in
create_then_read_example =
    create_then_read users stored memory_kv_laws times 10 key (some user) text user
      (world true no_keys) refl refl refl refl (entry_apart, index_apart)

enabled_queues_example :
    QueuedOrFailed users
      (queued_operation users times create (field_of (some user) "id") (some user))
      (world true no_keys)
      (create_record users times (some user) (world true no_keys))
    × QueuedOrFailed users
        (queued_operation users times update key (some user))
        (world true no_keys)
        (update_record users times 10 key (some user) (world true no_keys))
    × QueuedOrFailed users
        (queued_operation users times delete key none)
        (world true no_keys)
        (delete_record users times key (world true no_keys))
    × ((create_record users times (some user) (world true no_keys)).1.db ≡ 0)
    × ((delete_record users times key (world true no_keys)).1.db ≡ 0)
enabled_queues_example = enabled_queues users times 10 key (some user) (world true no_keys) refl

disabled_bypasses_example :
    OnlyDatabase users
      (world false no_keys)
      (create_record users times (some user) (world false no_keys)).1
    × OnlyDatabase users (world false no_keys) (read users 10 key (world false no_keys)).1
    × OnlyDatabase users
        (world false no_keys)
        (update_record users times 10 key (some user) (world false no_keys)).1
    × OnlyDatabase users
        (world false no_keys)
        (delete_record users times key (world false no_keys)).1
    × (create_record users times (some user) (world false no_keys)
        ≡ execute_write_operation users
            (queued_operation users times create (field_of (some user) "id") (some user))
            (world false no_keys))
    × (update_record users times 10 key (some user) (world false no_keys)
        ≡ execute_write_operation users
            (queued_operation users times update key (some user))
            (world false no_keys))
    × (delete_record users times key (world false no_keys)
        ≡ execute_write_operation users
            (queued_operation users times delete key none)
            (world false no_keys))
disabled_bypasses_example =
    disabled_bypasses users times 10 key (some user) (world false no_keys) refl

delete_then_read_restores_example :
    let (answer, w') =
      read users 10 key
        (delete_record users times key (world true (put "users:1" (some text) no_keys))).1 in
    (answer ≡ ok user) × (stored (run_background users w').kv "users:1" ≡ some text)
unfolding build_key is_in_flight lookup filled_in first_row scan_row scan name_values insert
delete_then_read_restores_example =
    delete_then_read_restores users stored memory_kv_laws times 10 key user text
      (world true (put "users:1" (some text) no_keys)) refl refl refl (entry_apart, index_apart)
      refl refl

abbrev unlogged : WalOperation
unlogged = record logged { operation_id = ""; timestamp = 0 }

keys_of_log_apart :
    (◌≢◌ {A = String} "wal:users:timestamp:0:users_1_0" "wal:users:entry:users_1_0")
    × (◌≢◌ {A = String} "wal:users:timestamp:0:users_1_0" "wal:users:ack:users_1_0")
    × (◌≢◌ {A = String} "wal:users:ack:users_1_0" "wal:users:entry:users_1_0")
keys_of_log_apart = (
  ground (arith, eq_iff "wal:users:timestamp:0:users_1_0" "wal:users:entry:users_1_0"),
  ground (arith, eq_iff "wal:users:timestamp:0:users_1_0" "wal:users:ack:users_1_0"),
  ground (arith, eq_iff "wal:users:ack:users_1_0" "wal:users:entry:users_1_0"),
)

append_then_get_example :
    let (r, s') = append memory_kv sample_formats times unlogged no_keys in
    let acked = (acknowledge memory_kv sample_formats "users" "users_1_0" s').1 in
    (r ≡ done)
    × ((get_operation memory_kv sample_formats "users" "users_1_0" s').0 ≡ ok logged)
    × ((is_acknowledged memory_kv sample_formats "users" "users_1_0" s').0 ≡ ok false)
    × ((is_acknowledged memory_kv sample_formats "users" "users_1_0" acked).0 ≡ ok true)
    × ((get_operation memory_kv sample_formats "users" "users_1_0" acked).0 ≡ ok logged)
unfolding filled_in generate_operation_id
append_then_get_example =
    append_then_get memory_kv sample_formats stored memory_kv_laws times unlogged (2 ∷ []) no_keys
      refl refl keys_of_log_apart.0 keys_of_log_apart.1 keys_of_log_apart.2 refl
