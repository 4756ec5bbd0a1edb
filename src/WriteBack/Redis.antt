-- ===== src/WriteBack/Redis.antt =====
-- internal/writeback/queue.go: a queue over Redis lists, one list for each table and a global one.
-- `S` is the state of the server behind the KV store. The JSON text of an operation and the
-- formatted names are a parameter, `Codec`; what `decode` refuses is not the text of an operation.
pub mod Lists
pub mod Sharing
use shock_absorber.Prelude.{
  ℕ, zero, suc, String, ℤ, pos, Bool, true, false, List, [], ◌∷◌, Option, none, some, Error, errorf,
  wrapf, Result, ok, err, Done, done, Exec, pure, fail, lift, wrapped, ◌>>=◌, ◌>>◌, if◌then◌else◌,
  ◌==◌, num_eq, sprintf,
}
use shock_absorber.Core.{WriteOperation}
use shock_absorber.Store.{Bytes, KvOps, ListOps}
use shock_absorber.WriteBack.Memory.{positive_or, Batch}

pub record Codec : Type 0 where
  pub encode : WriteOperation → Result Bytes
  pub decode : Bytes → Option WriteOperation
  -- generateOperationID: the table, the key by `%v` and the clock
  pub operation_id : WriteOperation → ℕ → String
  pub decimal : ℕ → String
  pub text_bytes : String → Bytes

-- `ops` is nil where the KV store has no list operations.
pub record RedisQueue (S : Type 0) : Type 0 where
  pub kv_store : KvOps S
  pub ops : Option (ListOps S)
  pub prefix : String
  pub closed : Bool

abbrev pub err_queue_closed : Error
err_queue_closed = errorf "write-back queue is closed" []

abbrev pub err_invalid_operation : Error
err_invalid_operation = errorf "invalid write operation" []

abbrev pub err_redis_operations_not_supported : Error
err_redis_operations_not_supported = errorf "KVStore does not support Redis list operations" []

-- 7*24*time.Hour
abbrev pub seven_days : ℤ
seven_days = pos 604800000000000

-- A zero timestamp is set to the clock.
abbrev pub stamped : ℕ → WriteOperation → WriteOperation
stamped clock op = record op { timestamp = if num_eq op.timestamp 0 then clock else op.timestamp }

abbrev pub decoded : Option WriteOperation → List WriteOperation → List WriteOperation
decoded none ops = ops
decoded (some op) ops = op ∷ ops

module _ {S : Type 0} where
  pub new_redis_queue : KvOps S → Option (ListOps S) → String → RedisQueue S
  new_redis_queue kv ops prefix = record {
    kv_store = kv;
    ops = ops;
    prefix = if prefix == "" then "wbq" else prefix;
    closed = false;
  }

  abbrev pub get_queue_key : RedisQueue S → String → String
  get_queue_key q table = sprintf (q.prefix ∷ ":" ∷ table ∷ [])

  abbrev pub get_global_queue_key : RedisQueue S → String
  get_global_queue_key q = sprintf (q.prefix ∷ ":" ∷ "global" ∷ [])

  -- Both lists get the operation.
  unfoldable pub push_lists : ListOps S → RedisQueue S → WriteOperation → Bytes → Exec S (Unit {0})
  push_lists ops q operation op_data = do
    wrapped "failed to enqueue operation to table queue" []
        (ops.list_push (get_queue_key q operation.table) op_data)
    wrapped "failed to enqueue operation to global queue" []
        (ops.list_push (get_global_queue_key q) op_data)

  -- Without list operations: the operation under its own key, and an index entry.
  unfoldable pub store_keys : Codec → ℕ → RedisQueue S → WriteOperation → Bytes → Exec S (Unit {0})
  store_keys codec clock q operation op_data =
      let op_id = codec.operation_id operation clock in
      wrapped "failed to store operation" [] (
        q.kv_store.set (sprintf (q.prefix ∷ ":op:" ∷ operation.table ∷ ":" ∷ op_id ∷ [])) op_data
          seven_days)
      >> wrapped "failed to store queue index" [] (
          q.kv_store.set
            (sprintf (
              q.prefix
              ∷ ":index:"
              ∷ operation.table
              ∷ ":"
              ∷ codec.decimal operation.timestamp
              ∷ ":"
              ∷ op_id
              ∷ []))
            (codec.text_bytes op_id) seven_days)

  unfoldable pub enqueue_bytes :
      Codec → ℕ → RedisQueue S → WriteOperation → Bytes → Exec S (Unit {0})
  unfolding push_lists store_keys
  enqueue_bytes codec clock q operation op_data = elim q.ops [
    | none ↦ store_keys codec clock q operation op_data
    | some ops ↦ push_lists ops q operation op_data
  ]

  unfoldable pub enqueue_operation : Codec → ℕ → RedisQueue S → WriteOperation → Exec S (Unit {0})
  unfolding enqueue_bytes
  enqueue_operation codec clock q operation =
      if operation.table == ""
      then fail (wrapf "%w: table name is required" [] err_invalid_operation)
      else do
        op_data ←
            wrapped "failed to marshal write operation" []
              (lift (codec.encode (stamped clock operation)))
        enqueue_bytes codec clock q (stamped clock operation) op_data

  -- `Enqueue`; `clock` is `time.Now()`.
  unfoldable pub enqueue : Codec → ℕ → RedisQueue S → Option WriteOperation → Exec S (Unit {0})
  unfolding enqueue_operation
  enqueue codec clock q none =
      if q.closed then fail err_queue_closed else fail err_invalid_operation
  enqueue codec clock q (some operation) =
      if q.closed then fail err_queue_closed else enqueue_operation codec clock q operation

  -- The loop that `Dequeue` and `DequeueFromTable` share: an error or an empty list ends it, and an
  -- entry that does not decode is skipped.
  unfoldable pub pop_loop : Codec → ListOps S → String → ℕ → S → List WriteOperation × S
  pop_loop codec ops key zero s = ([], s)
  pop_loop codec ops key (suc n) s =
      let (r, s') = ops.list_pop key s in
      elim r [
        | err e ↦ ([], s')
        | ok none ↦ ([], s')
        | ok (some bytes) ↦
            let (more, s'') = pop_loop codec ops key n s' in
            (decoded (codec.decode bytes) more, s'')
      ]

  unfoldable pub dequeue_key : Codec → RedisQueue S → String → ℤ → S → Batch × S
  unfolding pop_loop
  dequeue_key codec q key batch_size s =
      if q.closed then (([], some err_queue_closed), s) else elim q.ops [
        | none ↦ (([], some err_redis_operations_not_supported), s)
        | some ops ↦
            let (operations, s') = pop_loop codec ops key (positive_or 100 batch_size) s in
            ((operations, none), s')
      ]

  -- `Dequeue`
  unfoldable pub dequeue : Codec → RedisQueue S → ℤ → S → Batch × S
  unfolding dequeue_key
  dequeue codec q = dequeue_key codec q (get_global_queue_key q)

  -- `DequeueFromTable`
  unfoldable pub dequeue_from_table : Codec → RedisQueue S → String → ℤ → S → Batch × S
  unfolding dequeue_key
  dequeue_from_table codec q table = dequeue_key codec q (get_queue_key q table)

  abbrev length_or_zero : Result ℕ × S → ℕ
  length_or_zero (ok n, s) = n
  length_or_zero (err e, s) = 0

  size_of_key : RedisQueue S → String → S → ℕ
  size_of_key q key s =
      if q.closed
      then 0
      else elim q.ops [ none ↦ 0 | some ops ↦ length_or_zero (ops.list_length key s) ]

  -- `Size`
  pub size : RedisQueue S → S → ℕ
  unfolding size_of_key
  size q = size_of_key q (get_global_queue_key q)

  -- `SizeForTable`
  pub size_for_table : RedisQueue S → String → S → ℕ
  unfolding size_of_key
  size_for_table q table = size_of_key q (get_queue_key q table)

  -- `Close`
  pub close : RedisQueue S → RedisQueue S
  close q = record q { closed = true }
