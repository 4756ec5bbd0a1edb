-- ===== src/Tests/Servers.antt =====
-- A KV store and Redis lists kept in functions, with the laws of the interfaces; sample data.
use shock_absorber.Prelude.{
  String, refl, false, List, [], ◌∷◌, ◌++◌, Option, none, some, errorf, Result, ok, err, done,
  if◌then◌else◌, ◌==◌, length, is_some,
}
use shock_absorber.Core.{nil, string, Schema, create, WriteOperation}
use shock_absorber.Store.{Bytes, KvOps, ListOps, KvLaws, ListLaws, tail_of}
use shock_absorber.WriteBack.Redis.{Codec, RedisQueue}

abbrev pub Keys : Type 0
Keys = String → Option Bytes

abbrev pub put : String → Option Bytes → Keys → Keys
put k v s j = if k == j then v else s j

abbrev pub found : Option Bytes → Result Bytes
found none = err (errorf "key not found" [])
found (some v) = ok v

abbrev pub memory_kv : KvOps Keys
memory_kv = record {
  get = λ k s. (found (s k), s);
  set = λ k v ttl s. (done, put k (some v) s);
  delete = λ k s. (done, put k none s);
  exists = λ k s. (ok (is_some (s k)), s);
  batch_set = λ items ttl s. (done, s);
}

abbrev pub stored : Keys → String → Option Bytes
stored s k = s k

pub memory_kv_laws : KvLaws memory_kv stored
memory_kv_laws = record {
  get_present = λ k v s e. rw e refl;
  get_absent = λ k s e. (errorf "key not found" [], rw e refl);
  exists_contents = λ k s. refl;
  set_ok = λ k v ttl s. refl;
  set_contents = λ k j v ttl s. refl;
  delete_ok = λ k s. refl;
  delete_contents = λ k j s. refl;
}

abbrev pub Lists : Type 0
Lists = String → List Bytes

abbrev pub first_of : List Bytes → Option Bytes
first_of [] = none
first_of (v ∷ vs) = some v

abbrev pub memory_lists : ListOps Lists
memory_lists = record {
  list_push = λ k v s. (done, λ j. if k == j then s k ++ v ∷ [] else s j);
  list_pop = λ k s. (ok (first_of (s k)), λ j. if k == j then tail_of (s k) else s j);
  list_length = λ k s. (ok (length (s k)), s);
}

abbrev pub listed : Lists → String → List Bytes
listed s k = s k

pub memory_lists_laws : ListLaws memory_lists listed
memory_lists_laws = record {
  push_ok = λ k v s. refl;
  push_contents = λ k j v s. refl;
  pop_empty = λ k s e. rw e refl;
  pop_first = λ k s v vs e. rw e refl;
  pop_contents = λ k j s. refl;
  length_contents = λ k s. refl;
}

abbrev pub no_lists : Lists
no_lists k = []

abbrev pub lists_kv : KvOps Lists
lists_kv = record {
  get = λ k s. (err (errorf "key not found" []), s);
  set = λ k v ttl s. (done, s);
  delete = λ k s. (done, s);
  exists = λ k s. (ok false, s);
  batch_set = λ items ttl s. (done, s);
}

abbrev pub operation_on : String → WriteOperation
operation_on table = record {
  table = table;
  operation = create;
  key = string "1";
  payload = some (("id", string "1") ∷ []);
  timestamp = 5;
  retry_count = 0;
}

-- A codec that writes every operation as one byte and reads back the one on the users.
abbrev pub sample_codec : Codec
sample_codec = record {
  encode = λ op. ok (7 ∷ []);
  decode = λ bytes. some (operation_on "users");
  operation_id = λ op clock. "id";
  decimal = λ n. "0";
  text_bytes = λ s. 1 ∷ [];
}

abbrev pub sample_queue : RedisQueue Lists
sample_queue = record {
  kv_store = lists_kv;
  ops = some memory_lists;
  prefix = "wbq";
  closed = false;
}

abbrev pub users_schema : Schema
users_schema = record {
  table_name = "users";
  primary_key = "id";
  columns = record { name = "id"; type = "VARCHAR"; nullable = false; default = nil } ∷ [];
  indexes = [];
}
