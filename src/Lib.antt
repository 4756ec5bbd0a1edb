-- ===== src/Lib.antt =====
-- The shock absorber: a write-back cache in front of a relational database.
--
-- A write goes to a key-value store and, as an entry of a queue, to a drainer, which writes it to
-- the database at a limited rate. A read goes to the store and falls back to the database. A table
-- can be switched between this and plain access to the database at run time.
--
-- Parts, files and sources (paths from the repository's root):
--
--   Prelude       shared notation: tests, lists, maps, integers, floats, results of fallible code, texts
--   Core          internal/core/schema.go, writeback.go: schemas, records, write operations
--   Store         internal/core/kvstore.go, internal/writeback/redis_queue_ops.go: what a KV store
--                 offers (KvOps, ListOps) and the laws of a server that answers (KvLaws, ListLaws)
--   Database      internal/core/database.go, the translator's interface of internal/core/schema.go
--                 internal/database/mysql.go is MySql; the laws of its GetSchema are in Discovery and
--                 Grouping
--   Schema        internal/schema: Types and Mapper (mapper.go, over Conversions, Go's numbers and the
--                 standard packages), Validator (validator.go), Translator (translator.go); the laws
--                 are in Ranges, Statements, RoundTrip and Typed (over Typing)
--   Backend       internal/kvstore: Redis (redis.go), Dynamo (dynamodb.go), Factory (factory.go);
--                 the laws are in Expiry, Batches and Created
--   Registry      internal/registry: Lifecycle (lifecycle.go), Config (internal_config.go,
--                 config.go, the validators of internal/kvstore), Tables (table_registry.go)
--   WriteBack     internal/writeback: Memory (memory_queue.go), Redis (queue.go), Kafka
--                 (kafka_queue.go)
--   Table         internal/table/table_impl.go: State (its parts and the shared state), Reads
--                 (internal/read/cache_handler.go, fallback.go), Wal (internal/write/wal.go), Ops
--                 (Create, Read, Update, Delete, FindByField, ExecuteWriteOperation); the laws of
--                 the operations are in Switch, Cache, Stale, Namespaces and Translated (the tables
--                 with the translator of Schema); Consistency and Reading (internal/read/consistency.go)
--   Write         internal/write: the tests on write operations (validator.go: Validator, Merged) and
--                 the buffer of writes (buffer.go: Buffer, Flushes, History, Race)
--   Drainer       pkg/shockabsorber/drainer.go: the worker (Loop), Start and Stop (Restart, Race),
--                 DrainerManager (Manager), the worker of a table (Tables, Writes,
--                 WrittenBack)
--   Client        internal/client/client.go: NewClientImpl (New), EnableKV, DisableKV, GetTable and Close
--                 (Ops, Registered, Serves), the settings for the factories (Convert);
--                 pkg/shockabsorber/client.go: the client with its drainers (Wrapper, Runs, Replaced)
--   Settings      pkg/shockabsorber/config.go: the public configuration (Default) and the YAML between
--                 it and that of internal/registry/internal_config.go (Yaml, Read); the laws are in
--                 Lost, Tables and Accepted; NewClient on top of them is Client/Public
--   Server        cmd/test-server/main.go: the handlers, the configuration (Settings) and the start
--                 (Main); Retries is about a reference that comes twice
--   Tests         concrete servers, tables, registries and drainers, with the theorems at them
--
-- State and operations. A method that changes state and may fail is an `Exec S A`: a state to a
-- result and a state, so what was written before an error stays written. The World of a table holds
-- the states of the store, the database and the queue, the in-flight reads and the goroutines that
-- have still to populate the cache; each operation of TableImpl is one function on it. The registry
-- is a map of metadata with the flags of the instances. What goroutines do between the lock and the
-- unlock of a method is one step; where the code acts outside its lock (Enqueue and Close of the
-- in-memory queue, Stop of a drainer, Flush of the write buffer) the steps are relations, and Reach
-- is their closure.
--
-- Numbers. Counts and clocks are natural numbers, `int` and `time.Duration` settings integers, with
-- durations in nanoseconds; no arithmetic of the modelled code comes near 2^63. Thresholds of the
-- auto-scaling are floats: NaN, an infinity or a whole number over a power of two. Values of
-- interface{} are a data type with Go's sized integers.
--
-- Loops. A loop over a list or up to a count is structural recursion, so it needs no fuel. The
-- worker's endless loop runs for a list of turns; a theorem says how many turns empty a queue. The
-- loop of DynamoDB's BatchSet over slices of 25 items has the number of items as fuel; a theorem
-- says that all items are sent.
--
-- Parameters. Servers and the libraries of their clients, database/sql, JSON, YAML, files, HTTP,
-- strconv, fmt's formatting of values, the conversions of floats, the rate limiter and the users'
-- hooks are arguments. What a theorem needs of them is a hypothesis of it. The tables take the
-- translator as an argument too, which Table/Translated fills with that of Schema.
--
-- Not modelled: the public table type, which only calls the table, the transactions of the
-- database, which nothing begins, the encoding of cache metadata, the ticker of the write buffer
-- and all logging.
pub mod Prelude
pub mod Core
pub mod Store
pub mod Registry
pub mod WriteBack
pub mod Database
pub mod Table
pub mod Schema
pub mod Backend
pub mod Write
pub mod Drainer
pub mod Client
pub mod Settings
pub mod Server
mod Tests
