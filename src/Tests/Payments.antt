-- ===== src/Tests/Payments.antt =====
-- A table of payments, and the theorems on the demonstration server at it.
use shock_absorber.Prelude.{
  ℕ, ◌+◌, String, pos, ◌≡◌, ◌∙◌, refl, true, List, [], ◌∷◌, Map, none, some, Error, Result, ok,
  done, lookup,
}
use shock_absorber.Core.{string, Record, Schema, WriteOperation}
use shock_absorber.Database.{DbOps, SchemaTranslator}
use shock_absorber.Registry.Config.{InternalDatabaseConfig}
use shock_absorber.Registry.Config.Defaults.{Decoder}
use shock_absorber.Registry.Tables.Queries.{is_enabled}
use shock_absorber.Backend.Factory.{KvStoreFactory, dynamo_factory, create_store}
use shock_absorber.Drainer.Manager.{Drainer}
use shock_absorber.Settings.Yaml.{Node, at, write_config, write_tables}
use shock_absorber.Settings.Read.{
  effective, read_config, read_kv_store, read_redis, read_dynamo_db, read_cassandra, read_database,
  read_tables, read_write_back, read_kafka, read_auto_scaling,
}
use shock_absorber.Client.Convert.{convert_to_kv_store_config}
use shock_absorber.Client.New.{initialize_connections, connect_database, connected}
use shock_absorber.Client.Wrapper.{ClientWrapper, new_client}
use shock_absorber.Client.Public.{IsYaml, IsConnected, connect, connect-effective, connect_accepted}
use shock_absorber.Table.State.{TableImpl, World}
use shock_absorber.Table.Wal.{append}
use shock_absorber.Table.Ops.{create_record}
use shock_absorber.Server.{created, create_payment, identified}
use shock_absorber.Server.Settings.{server_config, server_config_accepted}
use shock_absorber.Server.Main.{launch, launch_drains}
use shock_absorber.Server.Retries.{creation, duplicate_creates_twice}
use shock_absorber.Tests.Servers.{Keys, memory_kv, users_schema}
use shock_absorber.Tests.Tables.{sample_formats, sample_queue_ops, no_keys, times}

abbrev payment_schema : Schema
payment_schema = record users_schema { table_name = "payment" }

-- The database has no row; statements are counted.
abbrev empty_database : DbOps ℕ
empty_database = record {
  query = λ q args n. (ok (record { rows = []; error = none }), n);
  exec = λ q args n. (ok 1, n + 1);
}

abbrev payment_translator : SchemaTranslator
payment_translator = record {
  to_kv = λ r schema. ok ("payment:p", 3 ∷ []);
  from_kv = λ key bytes schema. ok [];
  to_db = λ r schema. ok ("INSERT", []);
  to_db_update = λ key r schema. ok ("UPDATE", []);
  from_db = λ row schema. ok [];
}

abbrev payments : TableImpl Keys ℕ (List WriteOperation)
payments = record {
  table_name = "payment";
  schema = payment_schema;
  kv_store = memory_kv;
  database = empty_database;
  translator = payment_translator;
  write_queue = sample_queue_ops;
  formats = sample_formats;
  ttl = pos 1;
  namespace = "";
}

abbrev idle : World Keys ℕ (List WriteOperation)
idle = record { enabled = true; kv = no_keys; db = 0; queue = []; pending = []; background = [] }

abbrev payment : Record
payment = ("upi_reference_id", string "r") ∷ []

abbrev message : Error → String
message e = "error"

duplicate_creates_twice_example :
    let first = create_record payments times (some (identified "p" payment)) idle in
    let second = create_record payments times (some (identified "q" payment)) first.1 in
    (create_payment payments message 10 times "p" (ok payment) idle
      ≡ (created (identified "p" payment), first.1))
    × (create_payment payments message 11 times "q" (ok payment) first.1
        ≡ (created (identified "q" payment), second.1))
    × (second.1.db ≡ 0)
    × (second.1.queue
        ≡ creation payments times (identified "p" payment)
          ∷ creation payments times (identified "q" payment)
          ∷ [])
unfolding lookup create_record append
duplicate_creates_twice_example =
    duplicate_creates_twice payments message 10 11 times times "p" "q" "r" payment payment idle refl
      (record { no_row = refl }) refl refl refl refl

-- YAML for the server's configuration only.
abbrev marshal : Node → Result (List ℕ)
marshal n = ok (1 ∷ [])

abbrev unmarshal : Decoder
unmarshal text old = ok (read_config (write_config server_config) old)

server-IsYaml : IsYaml marshal unmarshal server_config 1 []
server-IsYaml = record { written = refl; reads = λ old. refl }

abbrev stores : Map (KvStoreFactory ℕ)
stores = ("dynamodb", dynamo_factory λ c. ok 2) ∷ []

abbrev mysql : InternalDatabaseConfig → Result ℕ
mysql d = ok 3

server-connects : initialize_connections stores mysql (effective server_config) ≡ ok (2, 3)
unfolding initialize_connections connect_database create_store dynamo_factory lookup effective
    read_config write_config write_tables at read_kv_store read_redis read_dynamo_db read_cassandra
    read_database read_tables read_write_back read_kafka read_auto_scaling
    convert_to_kv_store_config
server-connects = refl

abbrev connected_server : ClientWrapper ℕ ℕ
connected_server =
    new_client server_config
      (connected stores mysql (λ k. true) unmarshal (λ i. true) 0 (effective server_config) (2, 3))

server-connected :
    connect stores mysql (λ k. true) marshal unmarshal (λ i. true) 0 server_config
    ≡ ok connected_server
server-connected =
    connect-effective stores mysql (λ k. true) marshal unmarshal (λ i. true) 0 server_config 1 []
      server-IsYaml
    ∙ rw (server_config_accepted, server-connects) refl

connect_accepted_example : IsConnected server_config connected_server
connect_accepted_example =
    connect_accepted stores mysql (λ k. true) marshal unmarshal (λ i. true) 0 server_config
      connected_server server-connected

abbrev running : Result (ℕ × ClientWrapper ℕ ℕ)
running =
    launch stores mysql (λ k. true) marshal unmarshal (λ i. true) 0 (λ i. i) 10 7
      (ok payment_schema) done

launch_drains_example :
    (cw : ClientWrapper ℕ ℕ) × (d : Drainer ℕ) × (running ≡ ok (7, cw))
    × (cw.started ≡ true)
    × (cw.config ≡ server_config)
    × (is_enabled cw.impl.registry "payment" ≡ ok true)
    × (cw.drainer_manager.drainers ≡ ("payment", d) ∷ [])
    × (d.backends ≡ 7)
    × (d.config.drain_rate ≡ pos 5)
    × (d.state.running ≡ true)
launch_drains_example =
    launch_drains stores mysql (λ k. true) marshal unmarshal (λ i. true) 0 (λ i. i) 10 7
      (ok payment_schema) done 1 [] (2, 3) payment_schema server-IsYaml server-connects refl refl
