-- ===== src/WriteBack/Kafka.antt =====
-- internal/writeback/kafka_queue.go: a queue over a topic of Kafka. Lines of the log are left out.
-- kafka-go is outside the repository: `C` is the state of the brokers and of the consumer group, and
-- a record of calls what the code uses of its writer and reader.
pub mod Topic
use shock_absorber.Prelude.{
  ℕ, zero, suc, ◌+◌, ◌-◌, String, ℤ, Bool, true, false, List, [], ◌∷◌, length, Option, none, some,
  Error, errorf, wrapf, Result, ok, err, Done, done, Exec, fail, lift, wrapped, and_then, ◌>>=◌,
  ◌>>◌, if◌then◌else◌, ◌==◌,
}
use shock_absorber.Core.{OperationType, WriteOperation}
use shock_absorber.Store.{Bytes}
use shock_absorber.WriteBack.Memory.{positive_or, Batch}
use shock_absorber.WriteBack.Redis.{Codec, err_invalid_operation, stamped, decoded}

abbrev pub err_kafka_queue_closed : Error
err_kafka_queue_closed = errorf "kafka queue is closed" []

-- `kafka.Message` with its two headers.
pub record Message : Type 0 where
  pub key : String
  pub value : Bytes
  pub time : ℕ
  pub operation : OperationType
  pub table : String

-- A reader of a consumer group; `read_message` fails where its context is done first.
pub record KafkaClient (C : Type 0) : Type 0 where
  pub write_message : Message → Exec C (Unit {0})
  pub read_message : Exec C Message
  pub commit_message : Message → Exec C (Unit {0})
  pub close_writer : Exec C (Unit {0})
  pub close_reader : Exec C (Unit {0})

-- `KafkaQueue`; `server` is what the writer and the reader work on.
pub record KafkaQueue (C : Type 0) : Type 0 where
  pub server : C
  pub topic : String
  pub closed : Bool
  pub group_id : String
  pub brokers : List String
  pub size : ℕ

-- `NewKafkaQueue`, with the settings that the queue itself keeps.
unfoldable pub new_kafka_queue :
    {C : Type 0} → C → List String → String → String → Result (KafkaQueue C)
new_kafka_queue c [] topic group_id = err (errorf "at least one Kafka broker is required" [])
new_kafka_queue c (b ∷ bs) topic group_id =
    if topic == ""
    then err (errorf "Kafka topic is required" [])
    else ok (record {
      server = c;
      topic = topic;
      closed = false;
      group_id = if group_id == "" then "shock-absorber-writeback" else group_id;
      brokers = b ∷ bs;
      size = 0;
    })

abbrev pub message_of : WriteOperation → Bytes → Message
message_of op op_data = record {
  key = op.table;
  value = op_data;
  time = op.timestamp;
  operation = op.operation;
  table = op.table;
}

module _ {C : Type 0} (codec : Codec) (kafka : KafkaClient C) where
  unfoldable pub produce : WriteOperation → Exec (KafkaQueue C) (Unit {0})
  produce op q =
      let (r, c) =
        (wrapped "failed to marshal write operation" [] (lift (codec.encode op)) >>= λ op_data.
        wrapped "failed to write message to Kafka" [] (kafka.write_message (message_of op op_data)))
          q.server in
      elim r [
        | ok u ↦ (done, record q { server = c; size = q.size + 1 })
        | err e ↦ (err e, record q { server = c })
      ]

  enqueue_given : ℕ → Option WriteOperation → Exec (KafkaQueue C) (Unit {0})
  unfolding produce
  enqueue_given clock none = fail err_invalid_operation
  enqueue_given clock (some op) =
      if op.table == ""
      then fail (wrapf "%w: table name is required" [] err_invalid_operation)
      else produce (stamped clock op)

  -- `Enqueue`
  unfoldable pub enqueue : ℕ → Option WriteOperation → Exec (KafkaQueue C) (Unit {0})
  unfolding enqueue_given
  enqueue clock op q =
      if q.closed then (err err_kafka_queue_closed, q) else enqueue_given clock op q

  -- The loop of `Dequeue`: a read that fails ends it; a message that does not decode is skipped, any
  -- other is committed before the next read.
  unfoldable pub consume : ℕ → C → List WriteOperation × C
  consume zero c = ([], c)
  consume (suc n) c =
      let (r, c') = kafka.read_message c in
      elim r [
        | err e ↦ ([], c')
        | ok message ↦ elim (codec.decode message.value) [
          | none ↦ consume n c'
          | some op ↦
              let (more, c'') = consume n (kafka.commit_message message c').1 in (op ∷ more, c'')
        ]
      ]

  -- `Dequeue`; the counter stops at zero.
  unfoldable pub dequeue : ℤ → KafkaQueue C → Batch × KafkaQueue C
  unfolding consume
  dequeue batch_size q =
      let (ops, c) = consume (positive_or 100 batch_size) q.server in
      if q.closed
      then (([], some err_kafka_queue_closed), q)
      else ((ops, none), record q { server = c; size = q.size - length ops })

  -- `Close`: an error of the writer is dropped.
  unfoldable pub close : Exec (KafkaQueue C) (Unit {0})
  close q =
      let (r, c) = (kafka.close_reader (kafka.close_writer q.server).1) in
      if q.closed then (done, q) else (r, record q { server = c; closed = true })
