-- ===== src/WriteBack.antt =====
-- internal/writeback: the queues between the tables and the database.
pub mod Memory
pub mod Redis
pub mod Kafka
