-- ===== src/Client/Ops.antt =====
-- internal/client/client.go: `ClientImpl`. Each method holds the lock or reads a flag under it. The
-- constructor sets both connections, so the methods' tests for nil ones are left out. What
-- `GetSchema` answers, what `NewKafkaQueue` comes to and the reference of the new instance are
-- arguments.
use shock_absorber.Prelude.{
  ℕ, String, ℤ, Bool, true, List, [], ◌∷◌, ◌++◌, some, Error, errorf, wrapf, wrap, and_then, Result,
  ok, err, Done, done, Exec, if◌then◌else◌, ◌==◌,
}
use shock_absorber.Core.{Schema}
use shock_absorber.Registry.Config.{InternalConfig, InternalWriteBackConfig}
use shock_absorber.Registry.Tables.{TableMetadata, TableRegistry}
use shock_absorber.Registry.Tables as Tables

pub record ClientImpl (E : Type 0) : Type 0 where
  pub config : InternalConfig
  -- The KV store is a `RedisKVStore`.
  pub kv_store_is_redis : Bool
  pub registry : TableRegistry E
  pub closed : Bool

-- The queue of a table, with the size of the buffer of one in memory.
pub data QueueKind : Type 0 where
  memory_queue : ℤ → QueueKind
  redis_queue kafka_queue : QueueKind

-- The switch of `createTableInstance`.
unfoldable pub create_queue : InternalWriteBackConfig → Bool → Done → Result QueueKind
create_queue w is_redis kafka =
    if w.queue_type == "memory"
    then ok (memory_queue w.queue_buffer_size)
    else if w.queue_type == "redis"
    then (if is_redis
        then ok redis_queue
        else err (errorf "Redis KV store required for Redis queue type" []))
    else if w.queue_type == "kafka"
    then (and_then (wrap "failed to create Kafka queue" [] kafka) λ _. ok kafka_queue)
    else ok (memory_queue w.queue_buffer_size)

abbrev client_is_closed {ℓ} : {A : Type ℓ} → Result A
client_is_closed = err (errorf "client is closed" [])

abbrev empty_name {ℓ} : {A : Type ℓ} → Result A
empty_name = err (errorf "table name cannot be empty" [])

-- The schema of a table that is not registered, once its instance is made.
pub discovered_schema : String → Result Schema → Result QueueKind → Result Schema
discovered_schema name schema queue =
    and_then (wrap "failed to discover schema for table %q" (name ∷ []) schema)
      λ s. and_then (wrap "failed to create table instance" [] queue) λ _. ok s

-- What `Close` appends to its errors.
failure : String → Done → List Error
failure what (ok u) = []
failure what (err e) = wrapf what [] e ∷ []

-- What `Close` answers; `format` is the verb for a list of errors.
closed_with : (List Error → String) → List Error → Done
closed_with format [] = done
closed_with format (e ∷ errs) = err (errorf "errors during close: %v" (format (e ∷ errs) ∷ []))

module _ {E : Type 0} where
  unfoldable pub enable_registered : String → ℕ → ℕ → Exec (ClientImpl E) ℕ
  enable_registered name now table c =
      let (r, registry) = Tables.enable_kv name now c.registry in
      (
        and_then (wrap "failed to enable KV for table %q" (name ∷ []) r) λ _. ok table,
        record c { registry = registry },
      )

  unfoldable pub enable_known : String → ℕ → ℕ → Result TableMetadata → Exec (ClientImpl E) ℕ
  unfolding enable_registered
  enable_known name now table (ok m) c =
      if m.enabled then (ok table, c) else enable_registered name now table c
  enable_known name now table (err e) c = enable_registered name now table c

  unfoldable pub enable_discovered : String → ℕ → ℕ → Result Schema → Exec (ClientImpl E) ℕ
  unfolding enable_registered
  enable_discovered name now fresh (err e) c = (err e, c)
  enable_discovered name now fresh (ok schema) c =
      let (r, registry) = Tables.register name (some fresh) (some schema) now c.registry in
      let c' : ClientImpl E = record c { registry = registry } in
      let enabled = enable_registered name now fresh c' in
      elim r [ ok u ↦ enabled | err e ↦ (err (wrapf "failed to register table" [] e), c') ]

  unfoldable pub enable_found :
      String → ℕ → ℕ → Result Schema → Result QueueKind → Result ℕ → Exec (ClientImpl E) ℕ
  unfolding enable_known enable_discovered discovered_schema
  enable_found name now fresh schema queue (ok table) c =
      enable_known name now table (Tables.get_metadata c.registry name) c
  enable_found name now fresh schema queue (err e) c =
      enable_discovered name now fresh (discovered_schema name schema queue) c

  -- `EnableKV`
  unfoldable pub enable_kv : String → ℕ → ℕ → Result Schema → Done → Exec (ClientImpl E) ℕ
  unfolding enable_found
  enable_kv name now fresh schema kafka c =
      let queue = create_queue c.config.write_back c.kv_store_is_redis kafka in
      if name == ""
      then (empty_name, c)
      else if c.closed
      then (client_is_closed, c)
      else enable_found name now fresh schema queue (Tables.get c.registry name) c

  -- `DisableKV`
  pub disable_kv : String → ℕ → Exec (ClientImpl E) (Unit {0})
  disable_kv name now c =
      let (r, registry) = Tables.disable_kv name now c.registry in
      if name == ""
      then (empty_name, c)
      else if c.closed
      then (client_is_closed, c)
      else (r, record c { registry = registry })

  -- `GetTable`
  unfoldable pub get_table : ClientImpl E → String → Result ℕ
  get_table c name =
      if name == ""
      then empty_name
      else if c.closed
      then client_is_closed
      else Tables.get c.registry name

  -- `Close`, with what closing the KV store and the database comes to: each is closed whatever the
  -- others answer.
  pub close : (List Error → String) → Done → Done → Exec (ClientImpl E) (Unit {0})
  unfolding failure closed_with
  close format kv database c =
      let (r, registry) = Tables.clear c.registry in
      let errs =
        failure "failed to clear table registry" r
        ++ failure "failed to close KV store" kv
        ++ failure "failed to close database" database in
      if c.closed
      then (done, c)
      else (closed_with format errs, record c { registry = registry; closed = true })
