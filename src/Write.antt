-- ===== src/Write.antt =====
-- internal/write: the tests on write operations, and the buffer of writes. The log of
-- internal/write/wal.go stands in Table/Wal.antt.
pub mod Validator
pub mod Merged
pub mod Buffer
pub mod Flushes
pub mod Plain
pub mod History
pub mod Race
