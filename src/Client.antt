-- ===== src/Client.antt =====
-- internal/client/client.go: how the client wires the parts.
pub mod Convert
pub mod Ops
pub mod New
pub mod Registered
pub mod Serves
pub mod Wrapper
pub mod Public
pub mod Discovered
pub mod Runs
pub mod Replaced
