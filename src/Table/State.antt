-- ===== src/Table/State.antt =====
-- A table and the state that its operations share.
-- `S`, `D` and `Q` are the states of the KV store, the database and the write-back queue. What a
-- goroutine has still to do is an entry of `background`: `go fh.populateCache(...)` of
-- internal/read/fallback.go adds one.
use shock_absorber.Prelude.{
  ℕ, String, ℤ, Bool, List, [], ◌∷◌, Option, Error, Map, Result, Exec, sprintf, if◌then◌else◌, ◌==◌,
}
use shock_absorber.Core.{Value, Record, Schema, OperationType, WriteOperation}
use shock_absorber.Store.{Bytes, KvOps}
use shock_absorber.Database.{DbOps, SchemaTranslator}
use shock_absorber.WriteBack.Memory.{Batch}

-- core.WriteBackQueue
pub record QueueOps (Q : Type 0) : Type 0 where
  pub enqueue : WriteOperation → Exec Q (Unit {0})
  pub dequeue : ℤ → Q → Batch × Q
  pub size : Q → ℕ

-- WALOperation of internal/write/wal.go
pub record WalOperation : Type 0 where
  pub operation_id : String
  pub table : String
  pub operation : OperationType
  pub key : Value
  pub payload : Option Record
  pub timestamp : ℕ
  pub key_value : String
  pub value : Option Bytes

-- The texts of Go's fmt and encoding/json that end in keys and log entries.
pub record Formats : Type 0 where
  pub value_text : Value → String
  pub decimal : ℕ → String
  pub text_bytes : String → Bytes
  pub encode_wal : WalOperation → Result Bytes
  pub decode_wal : Bytes → Result WalOperation

-- The readings of the clock that one call makes.
pub record Times : Type 0 where
  pub wal_time : ℕ
  pub id_time : ℕ
  pub queue_time : ℕ

-- TableImpl, with the handlers that `NewTableImpl` builds from the same parts.
pub record TableImpl (S D Q : Type 0) : Type 0 where
  pub table_name : String
  pub schema : Schema
  pub kv_store : KvOps S
  pub database : DbOps D
  pub translator : SchemaTranslator
  pub write_queue : QueueOps Q
  pub formats : Formats
  pub ttl : ℤ
  pub namespace : String

-- pendingRead: `done` is closed once a result or an error is set.
pub record PendingRead : Type 0 where
  pub result : Option Record
  pub error : Option Error
  pub waiters : ℕ
  pub deadline : ℕ

pub record World (S D Q : Type 0) : Type 0 where
  pub enabled : Bool
  pub kv : S
  pub db : D
  pub queue : Q
  pub pending : Map PendingRead
  pub background : List (Option Record)

module _ {S D Q A : Type 0} where
  -- An operation of one part, inside the whole.
  abbrev pub on_kv : Exec S A → Exec (World S D Q) A
  on_kv m w = let (r, s) = m w.kv in (r, record w { kv = s })

  abbrev pub on_db : Exec D A → Exec (World S D Q) A
  on_db m w = let (r, d) = m w.db in (r, record w { db = d })

  abbrev pub on_queue : Exec Q A → Exec (World S D Q) A
  on_queue m w = let (r, q) = m w.queue in (r, record w { queue = q })

-- `BuildKey` of internal/read/cache_handler.go
unfoldable pub build_key : {S D Q : Type 0} → TableImpl S D Q → Value → String
build_key t key =
    if t.namespace == ""
    then sprintf (t.table_name ∷ ":" ∷ t.formats.value_text key ∷ [])
    else sprintf (t.namespace ∷ ":" ∷ t.table_name ∷ ":" ∷ t.formats.value_text key ∷ [])
