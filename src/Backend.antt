-- ===== src/Backend.antt =====
-- internal/kvstore: the stores behind the interface of internal/core/kvstore.go, and their factories.
-- The servers and the client libraries (go-redis, the AWS SDK) are outside the repository: `C` is the
-- state of a server and a record of commands what the code calls of its client.
pub mod Redis
pub mod Dynamo
pub mod Expiry
pub mod Batches
pub mod Factory
pub mod Created
