-- ===== src/Table.antt =====
-- internal/table/table_impl.go: the operations of a table, over its KV store, database, queue and
-- log; with internal/read (keys, in-flight reads, the cache, the fallback) and internal/write/wal.go.
pub mod State
pub mod Reads
pub mod Wal
pub mod Ops
pub mod Switch
pub mod Cache
pub mod Log
pub mod Stale
pub mod Namespaces
pub mod Translated
pub mod Consistency
pub mod Reading
