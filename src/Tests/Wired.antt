-- ===== src/Tests/Wired.antt =====
-- Tables with the translator of internal/schema, a KV store in memory and a queue in a list.
use shock_absorber.Prelude.{
  if◌then◌else◌, ℕ, ◌+◌, ◌≡◌, ◌≢◌, refl, String, ℤ, pos, negsuc, true, false, List, [], ◌∷◌, ◌++◌,
  length, lookup, none, some, errorf, wrap, ok, err, done, is_ok, arith, eq_iff,
}
use shock_absorber.Core.{Value, integer, float64, string, int, int64, Record, WriteOperation}
use shock_absorber.Store.{Bytes}
use shock_absorber.Schema.Conversions.{Go, wrap64}
use shock_absorber.Schema.Types.{kind_of}
use shock_absorber.Schema.Mapper.{convert_to_db_value, convert_known}
use shock_absorber.Schema.Translator.{new_translator, translator_ops, convert_entries}
use shock_absorber.Schema.RoundTrip.{GoLaws, kept_int64, kept_text}
use shock_absorber.Table.State.{TableImpl, World, Times, QueueOps, Formats, build_key}
use shock_absorber.Table.Reads.{is_in_flight, cache_read}
use shock_absorber.Table.Wal.{filled_in}
use shock_absorber.Table.Ops.{create_record, delete_record, read}
use shock_absorber.Table.Cache.{database_answer}
use shock_absorber.Table.Translated.{Wired, stored_key, created_is_read, namespaced_record_missed}
use shock_absorber.Table.Consistency.{read_with_consistency, consistency_levels}
use shock_absorber.Tests.Servers.{Keys, memory_kv, memory_kv_laws, stored}
use shock_absorber.Tests.Schemas.{sample_go, five, float_of, integer_of, people, ann, ann_valid}

-- The values of `ann` as the mapper converts them, and as JSON gives them back.
abbrev converted_ann : Record
converted_ann = ("id", integer int64 (pos 5)) ∷ ("name", string "Ann") ∷ []

abbrev go : Go
go = sample_go (ok (("id", float64 10) ∷ ("name", string "Ann") ∷ []))

exact : (z : ℤ) → integer_of (float_of z) ≡ z
exact (pos n) = ground arith
exact (negsuc n) = ground arith

go_laws : GoLaws go
go_laws = record { exact_int64 = λ z small. exact z; exact_int16 = λ z small. exact z }

abbrev formats : Formats
formats = record {
  value_text = five;
  decimal = λ n. "0";
  text_bytes = λ s. [];
  encode_wal = λ op. ok (2 ∷ []);
  decode_wal = λ b. err (errorf "not here" []);
}

abbrev queue_ops : QueueOps (List WriteOperation)
queue_ops = record {
  enqueue = λ op q. (done, q ++ op ∷ []);
  dequeue = λ n q. ((q, none), []);
  size = λ q. length q;
}

-- A database of no rows.
abbrev table_in : String → TableImpl Keys ℕ (List WriteOperation)
table_in namespace = record {
  table_name = "people";
  schema = people;
  kv_store = memory_kv;
  database = record {
    query = λ q args n. (ok (record { rows = []; error = none }), n);
    exec = λ q args n. (ok 1, n + 1);
  };
  translator = translator_ops (new_translator go);
  write_queue = queue_ops;
  formats = formats;
  ttl = pos 1;
  namespace = namespace;
}

wired : (namespace : String) → Wired go (table_in namespace)
wired namespace = record { real_translator = refl; same_text = refl; same_name = refl }

abbrev world : World Keys ℕ (List WriteOperation)
world = record { enabled = true; kv = λ k. none; db = 0; queue = []; pending = []; background = [] }

abbrev times : Times
times = record { wal_time = 5; id_time = 6; queue_time = 7 }

abbrev text : Bytes
text = 3 ∷ 4 ∷ []

abbrev key : Value
key = integer int (pos 5)

entry_apart : ◌≢◌ {A = String} "wal:people:entry:people_5_0" "people:5"
entry_apart = ground (arith, eq_iff "wal:people:entry:people_5_0" "people:5")

index_apart : ◌≢◌ {A = String} "wal:people:timestamp:0:people_5_0" "people:5"
index_apart = ground (arith, eq_iff "wal:people:timestamp:0:people_5_0" "people:5")

entry_apart_app : ◌≢◌ {A = String} "wal:people:entry:people_5_0" "app:people:5"
entry_apart_app = ground (arith, eq_iff "wal:people:entry:people_5_0" "app:people:5")

index_apart_app : ◌≢◌ {A = String} "wal:people:timestamp:0:people_5_0" "app:people:5"
index_apart_app = ground (arith, eq_iff "wal:people:timestamp:0:people_5_0" "app:people:5")

created_is_read_example :
    (read (table_in "") 10 key (create_record (table_in "") times (some ann) world).1).0
    ≡ ok converted_ann
unfolding build_key is_in_flight lookup filled_in convert_entries convert_to_db_value convert_known
    kind_of wrap64
created_is_read_example =
    created_is_read (table_in "") go (wired "") stored memory_kv_laws go_laws times 10 ann
      converted_ann key text world refl refl refl (ann_valid _) refl refl
      (kept_int64 (pos 5) (omega arith), (kept_text "Ann", tt)) refl refl (entry_apart, index_apart)

app_named : ◌≢◌ {A = String} "app" ""
app_named = ground (arith, eq_iff "app" "")

namespaced_record_missed_example :
    let created = (create_record (table_in "app") times (some ann) world).1 in
    (created.kv "people:5" ≡ some text)
    × ((read (table_in "app") 10 key created).0 ≡ database_answer (table_in "app") key 0)
    × ((delete_record (table_in "app") times key created).1.kv "people:5" ≡ some text)
unfolding stored_key build_key is_in_flight lookup filled_in convert_entries convert_to_db_value
    convert_known kind_of wrap64
namespaced_record_missed_example =
    namespaced_record_missed (table_in "app") go (wired "app") stored memory_kv_laws times 10 ann
      converted_ann key text world app_named refl (ann_valid _) refl refl refl refl refl
      (entry_apart, index_apart) (entry_apart_app, index_apart_app) (entry_apart, index_apart)

consistency_levels_example :
    let (cached, w') = cache_read (table_in "") 10 key world in
    let (full, w'') = read (table_in "") 10 key world in
    (read_with_consistency (table_in "") 10 key true world
      ≡ (wrap "record not found in cache (strong consistency required)" [] cached, w'))
    × (w'.db ≡ 0)
    × (w'.background ≡ [])
    × (read_with_consistency (table_in "") 10 key false world ≡ (
      (if is_ok cached
          then full
          else wrap "read failed (cache miss and DB fallback failed)" [] full),
      w'',
    ))
consistency_levels_example = consistency_levels (table_in "") 10 key world refl
