-- ===== src/Table/Wal.antt =====
-- internal/write/wal.go: the log of write operations, kept in the KV store.
use shock_absorber.Prelude.{
  String, ℤ, pos, ℕ, Bool, [], ◌∷◌, Exec, lift, wrapped, ◌>>=◌, ◌>>◌, sprintf, if◌then◌else◌, ◌==◌,
  num_eq,
}
use shock_absorber.Core.{Value}
use shock_absorber.Store.{KvOps}
use shock_absorber.Table.State.{Formats, WalOperation, Times}

-- The prefix that `NewTableImpl` gives to `NewWALManager`.
abbrev pub wal_prefix : String
wal_prefix = "wal"

-- 24 * time.Hour and 7 * 24 * time.Hour, in nanoseconds.
abbrev pub one_day : ℤ
one_day = pos 86400000000000

abbrev pub seven_days : ℤ
seven_days = pos 604800000000000

-- `generateOperationID`
unfoldable pub generate_operation_id : Formats → String → Value → ℕ → String
generate_operation_id f table key clock =
    sprintf (table ∷ "_" ∷ f.value_text key ∷ "_" ∷ f.decimal clock ∷ [])

-- An empty identifier and a zero timestamp are filled in.
unfoldable pub filled_in : Formats → Times → WalOperation → WalOperation
unfolding generate_operation_id
filled_in f times op = record op {
  operation_id =
      if op.operation_id == ""
      then generate_operation_id f op.table op.key times.id_time
      else op.operation_id;
  timestamp = if num_eq op.timestamp 0 then times.wal_time else op.timestamp;
}

abbrev pub wal_entry_key : String → String → String
wal_entry_key table operation_id =
    sprintf (wal_prefix ∷ ":" ∷ table ∷ ":entry:" ∷ operation_id ∷ [])

abbrev pub timestamp_key : Formats → WalOperation → String
timestamp_key f op = sprintf (
    wal_prefix
    ∷ ":"
    ∷ op.table
    ∷ ":timestamp:"
    ∷ f.decimal op.timestamp
    ∷ ":"
    ∷ op.operation_id
    ∷ [])

abbrev pub ack_key : String → String → String
ack_key table operation_id = sprintf (wal_prefix ∷ ":" ∷ table ∷ ":ack:" ∷ operation_id ∷ [])

module _ {S : Type 0} (kv : KvOps S) (f : Formats) where
  unfoldable pub append_filled : WalOperation → Exec S (Unit {0})
  append_filled op = do
    op_data ← wrapped "failed to marshal WAL operation" [] (lift (f.encode_wal op))
    wrapped "failed to store WAL entry" []
        (kv.set (wal_entry_key op.table op.operation_id) op_data one_day)
    wrapped "failed to store WAL timestamp index" []
        (kv.set (timestamp_key f op) (f.text_bytes op.operation_id) one_day)

  -- `Append`
  unfoldable pub append : Times → WalOperation → Exec S (Unit {0})
  unfolding filled_in append_filled
  append times op = append_filled (filled_in f times op)

  -- `Get`
  unfoldable pub get_operation : String → String → Exec S WalOperation
  get_operation table operation_id = do
    op_data ← wrapped "failed to get WAL entry" [] (kv.get (wal_entry_key table operation_id))
    wrapped "failed to unmarshal WAL operation" [] (lift (f.decode_wal op_data))

  -- `Acknowledge`
  unfoldable pub acknowledge : String → String → Exec S (Unit {0})
  acknowledge table operation_id =
      wrapped "failed to acknowledge WAL entry" []
        (kv.set (ack_key table operation_id) (f.text_bytes "1") seven_days)

  -- `IsAcknowledged`
  unfoldable pub is_acknowledged : String → String → Exec S Bool
  is_acknowledged table operation_id =
      wrapped "failed to check WAL acknowledgment" [] (kv.exists (ack_key table operation_id))
