-- ===== src/Tests/Topics.antt =====
-- A topic of Kafka in memory, with `Dequeue` at it; and settings that the client converts.
use shock_absorber.Prelude.{
  ℕ, ◌≡◌, ◌⊎◌, refl, pos, false, List, [], ◌∷◌, ◌++◌, none, Error, errorf, wrap, Result, ok, err,
  done, lookup,
}
use shock_absorber.Core.{create}
use shock_absorber.Store.{tail_of}
use shock_absorber.WriteBack.Kafka.{Message, KafkaClient, KafkaQueue, dequeue}
use shock_absorber.WriteBack.Kafka.Topic.{TopicLaws, operations_in, dequeue_commits}
use shock_absorber.Registry.Config.Defaults.{default_internal_config}
use shock_absorber.Registry.Config.Validation.{
  validate_kv_store, default_validators, run_validator, redis_validate,
}
use shock_absorber.Backend.Factory.{KvStoreConfig, create_store}
use shock_absorber.Backend.Created.{registered}
use shock_absorber.Client.Convert.{convert_to_kv_store_config, accepted_settings_create}
use shock_absorber.Tests.Servers.{sample_codec}

-- The unread messages and those that are committed.
abbrev Topic : Type 0
Topic = List Message × List Message

abbrev read_in : Topic → Result Message × Topic
read_in ([], done_ones) = (err (errorf "context deadline exceeded" []), ([], done_ones))
read_in (m ∷ ms, done_ones) = (ok m, (ms, done_ones ++ m ∷ []))

abbrev sample_kafka : KafkaClient Topic
sample_kafka = record {
  write_message = λ m c. (done, (c.0 ++ m ∷ [], c.1));
  read_message = read_in;
  commit_message = λ m c. (done, c);
  close_writer = λ c. (done, c);
  close_reader = λ c. (done, c);
}

read_unread : (c : Topic) → (read_in c).1.0 ≡ tail_of c.0
read_unread ([], b) = refl
read_unread (m ∷ ms, b) = refl

read_first : (c : Topic) (m : Message) (ms : List Message) → c.0 ≡ m ∷ ms → (read_in c).0 ≡ ok m
read_first ([], b) m ms e = cc
read_first (x ∷ xs, b) m ms e = cc

read_committed :
    (c : Topic) (m : Message) (ms : List Message) → c.0 ≡ m ∷ ms → (read_in c).1.1 ≡ c.1 ++ m ∷ []
read_committed ([], b) m ms e = cc
read_committed (x ∷ xs, b) m ms e = cc

empty_committed : (c : Topic) → c.0 ≡ [] → (read_in c).1.1 ≡ c.1
empty_committed ([], b) e = refl
empty_committed (x ∷ xs, b) e = cc

read_empty : (c : Topic) → c.0 ≡ [] → (e : Error) × ((read_in c).0 ≡ err e)
read_empty ([], b) e = (errorf "context deadline exceeded" [], refl)
read_empty (x ∷ xs, b) e = cc

topic_laws : TopicLaws sample_kafka (λ c. c.0) (λ c. c.1)
topic_laws = record {
  read_empty = read_empty;
  read_first = read_first;
  read_unread = read_unread;
  read_committed = read_committed;
  empty_committed = empty_committed;
  commit_unread = λ m c. refl;
  commit_committed = λ m ms c e. refl;
}

abbrev message : Message
message = record { key = "users"; value = 7 ∷ []; time = 5; operation = create; table = "users" }

abbrev kafka_queue : KafkaQueue Topic
kafka_queue = record {
  server = (message ∷ message ∷ message ∷ [], []);
  topic = "writes";
  closed = false;
  group_id = "group";
  brokers = "localhost:9092" ∷ [];
  size = 3;
}

dequeue_commits_example :
    let ((ops, e), q) = dequeue sample_codec sample_kafka (pos 2) kafka_queue in
    (ops ≡ operations_in sample_codec (message ∷ message ∷ []))
    × (e ≡ none)
    × (q.server.0 ≡ message ∷ [])
    × (q.server.1 ≡ message ∷ message ∷ [])
    × (q.size ≡ 1)
dequeue_commits_example =
    dequeue_commits sample_codec sample_kafka (λ c. c.0) (λ c. c.1) topic_laws (pos 2) kafka_queue
      refl

abbrev answer : ℕ → KvStoreConfig → Result ℕ
answer n c = ok n

accepted_settings_create_example :
    let k = convert_to_kv_store_config default_internal_config.kv_store in
    let created = create_store (registered (answer 1) (answer 2)) k in
    ((k.type ≡ "redis") × (created ≡ wrap "failed to create Redis KV store" [] (ok 1)))
    ⊎ ((k.type ≡ "dynamodb") × (created ≡ wrap "failed to create DynamoDB KV store" [] (ok 2)))
unfolding validate_kv_store run_validator default_validators redis_validate lookup
accepted_settings_create_example =
    accepted_settings_create (answer 1) (answer 2) default_internal_config refl
