-- ===== src/Tests.antt =====
-- Tests: concrete tables, queues, registries and drainers, and the theorems at them.
pub mod Servers
mod Queues
pub mod Tables
mod Registries
mod Drainers
mod Schemas
mod Wired
mod Stores
mod Topics
mod Clients
mod Settings
mod Discoveries
mod Payments
mod WrittenBack
