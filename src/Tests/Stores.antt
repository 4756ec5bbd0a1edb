-- ===== src/Tests/Stores.antt =====
-- Servers in memory behind the stores of internal/kvstore, and the write buffer over such a store.
use shock_absorber.Prelude.{
  ℕ, suc, ◌≡◌, ◌⊎◌, refl, String, ℤ, pos, false, List, [], ◌∷◌, All, length, lookup, Option, none,
  some, Map, errorf, Result, Exec, ok, err, done, if◌then◌else◌, ◌==◌, arith,
}
use shock_absorber.Store.{Bytes, KvOps}
use shock_absorber.Backend.Dynamo.{
  Item, Attribute, text_attribute, DynamoClient, second, batches, get, set, batch_set, new_items,
  new_item,
}
use shock_absorber.Backend.Expiry.{open_store, value_lives}
use shock_absorber.Backend.Batches.{concat, OneRequest, after_requests, batch_set_requests}
use shock_absorber.Backend.Factory.{
  KvStoreConfig, dynamo_factory, create_store, redis_config_checks, dynamo_config_checks,
}
use shock_absorber.Backend.Created.{Passed, registered, init-registered, created_is_checked}
use shock_absorber.Table.State.{WalOperation}
use shock_absorber.Write.Buffer.{
  operations_of, close, BufferedWrite, WriteBuffer, set_each, default_write_buffer_config,
}
use shock_absorber.Write.Race.{Shared, Reach, flushes_race}
use shock_absorber.Write.History.{
  BufferCall, writes, flushes, buffer_calls, accepted, closed_loses_nothing,
}
use shock_absorber.Write.Flushes.{BatchLaws, overlay}
use shock_absorber.Tests.Servers.{Keys, memory_kv, memory_kv_laws, stored}

-- A table of items by their key.
abbrev Items : Type 0
Items = String → Option Item

abbrev key_of : Option Attribute → String
key_of (some (text_attribute k)) = k
key_of _ = ""

abbrev put_item_in : Item → Items → Items
put_item_in item items j = if key_of (lookup "key" item) == j then some item else items j

abbrev sample_dynamo : DynamoClient Items
sample_dynamo = record {
  describe_table = λ c. (done, c);
  get_item = λ k projection c. (ok (c k), c);
  put_item = λ item c. (done, put_item_in item c);
  delete_item = λ k c. (done, c);
  batch_write = λ items c. (ok items, c);
  decimal = λ z. "3";
  scan_decimal = λ s. ok (pos 3);
  rfc3339 = λ n. "now";
}

abbrev no_items : Items
no_items k = none

-- The clock reads one second; the value lives for two.
abbrev clock : ℕ → ℕ
clock n = second

abbrev stored_item : Item
stored_item = new_item sample_dynamo clock "k" (7 ∷ []) (pos (suc 1999999999))

abbrev holding_item : Items
holding_item = put_item_in stored_item no_items

value_lives_example :
    (set sample_dynamo clock "k" (7 ∷ []) (pos (suc 1999999999)) (open_store no_items)
      ≡ (done, open_store holding_item))
    × (get sample_dynamo 3000000000 "k" (open_store holding_item)
        ≡ (ok (7 ∷ []), open_store holding_item))
    × (get sample_dynamo 4000000000 "k" (open_store holding_item)
        ≡ (err (errorf "key not found: %s" ("k" ∷ [])), open_store holding_item))
unfolding new_item lookup
value_lives_example =
    value_lives sample_dynamo clock 3000000000 4000000000 1999999999 "k" (7 ∷ []) no_items
      holding_item holding_item holding_item refl (omega arith) (omega arith) refl refl

abbrev two_items : Map Bytes
two_items = ("a", 1 ∷ []) ∷ ("b", 2 ∷ []) ∷ []

batch_set_requests_example :
    let all = new_items sample_dynamo clock 0 two_items (pos 0) in
    let requests = batches (length all) all in
    (concat requests ≡ all)
    × (length all ≡ 2)
    × All OneRequest requests
    × (length requests ≡ 1)
    × (batch_set sample_dynamo clock two_items (pos 0) (open_store no_items)
        ≡ (done, open_store (after_requests sample_dynamo requests no_items)))
batch_set_requests_example =
    batch_set_requests sample_dynamo clock two_items (pos 0) no_items (λ batch d. (batch, refl))

abbrev dynamo_config : KvStoreConfig
dynamo_config = record {
  type = "dynamodb";
  endpoints = [];
  cluster_mode = false;
  password = "";
  db = pos 0;
  max_retries = pos 0;
  pool_size = pos 0;
  min_idle_conns = pos 0;
  dial_timeout = pos 0;
  read_timeout = pos 0;
  write_timeout = pos 0;
  region = "eu-west-1";
  table_name = "cache";
  endpoint = "";
  access_key_id = "";
  secret_access_key = "";
}

abbrev answer : ℕ → KvStoreConfig → Result ℕ
answer n c = ok n

created_is_checked_example :
    ((◌≡◌ {A = String} "dynamodb" "dynamodb")
      × Passed (dynamo_config_checks dynamo_config)
      × (answer 2 dynamo_config ≡ ok 2))
    ⊎ ((◌≡◌ {A = String} "dynamodb" "redis")
        × Passed (redis_config_checks dynamo_config)
        × (answer 1 dynamo_config ≡ ok 2))
unfolding registered create_store lookup dynamo_factory
created_is_checked_example =
    created_is_checked (answer 1) (answer 2) (registered (answer 1) (answer 2)) dynamo_config 2
      (init-registered (answer 1) (answer 2)) refl

-- A store whose batches store their items.
abbrev batch_kv : KvOps Keys
batch_kv = record {
  get = memory_kv.get;
  set = memory_kv.set;
  delete = memory_kv.delete;
  exists = memory_kv.exists;
  batch_set = λ items ttl s. (done, λ j. overlay (lookup j items) (s j));
}

batch_laws : BatchLaws batch_kv stored
batch_laws = record {
  single = record {
    get_present = memory_kv_laws.get_present;
    get_absent = memory_kv_laws.get_absent;
    exists_contents = memory_kv_laws.exists_contents;
    set_ok = memory_kv_laws.set_ok;
    set_contents = memory_kv_laws.set_contents;
    delete_ok = memory_kv_laws.delete_ok;
    delete_contents = memory_kv_laws.delete_contents;
  };
  batch_answers = λ items ttl s. refl;
  batch_contents = λ items ttl s j. refl;
}

abbrev unlogged : WalOperation → Exec Keys (Unit {0})
unlogged op s = (done, s)

abbrev entry : ℕ → ℤ → BufferedWrite
entry n ttl = record { key = "k"; value = n ∷ []; ttl = ttl; operation = none }

abbrev holding : List BufferedWrite → WriteBuffer
holding ws = record {
  config = default_write_buffer_config;
  buffer = ws;
  closed = false;
  signalled = false;
  total_flushes = 0;
  total_writes = 2;
}

abbrev empty : Keys
empty k = none

abbrev buffer_history : List BufferCall
buffer_history = writes (entry 1 (pos 5)) ∷ flushes ∷ writes (entry 2 (pos 5)) ∷ []

closed_loses_nothing_example :
    let p = buffer_calls batch_kv unlogged (λ gs. gs) buffer_history (holding [], empty) in
    let after = (close batch_kv unlogged (λ gs. gs) p).1 in
    (after.0.buffer ≡ [])
    × (after.1 "k"
        ≡ set_each batch_kv unlogged
            (accepted batch_kv unlogged (λ gs. gs) buffer_history (holding [], empty))
            empty
            "k")
closed_loses_nothing_example =
    closed_loses_nothing batch_kv unlogged (λ gs. gs) stored batch_laws (λ g. refl) (pos 5)
      buffer_history (holding []) empty "k" refl ((refl, refl), (tt, ((refl, refl), tt)))

flushes_race_example :
    (y : Shared Keys) × Reach batch_kv unlogged
      (λ gs. gs)
      (record { buffer = holding []; store = empty; in_flight = [] })
      y
    × (y.buffer.buffer ≡ [])
    × (y.in_flight ≡ [])
    × (y.store "k" ≡ some (1 ∷ []))
unfolding operations_of
flushes_race_example =
    flushes_race batch_kv unlogged (λ gs. gs) stored batch_laws (λ g. refl) (holding []) empty
      (entry 1 (pos 5)) (entry 2 (pos 7)) refl refl refl refl refl
