-- ===== src/Registry.antt =====
-- internal/registry.
pub mod Lifecycle
pub mod Config
pub mod Tables
