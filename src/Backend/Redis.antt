-- ===== src/Backend/Redis.antt =====
-- internal/kvstore/redis.go: `RedisKVStore`. Lines of the log are left out.
use shock_absorber.Prelude.{
  ℕ, String, ℤ, pos, Bool, true, false, List, [], ◌∷◌, map, Option, none, some, Map, not_positive,
  ltb, errorf, wrapf, wrap, and_then, pure, ◌>>=◌, Result, ok, err, done, Exec, wrapped,
  if◌then◌else◌,
}
use shock_absorber.Store.{Bytes}

-- The commands of `redis.Client`; `none` is redis.Nil, and an expiration of 0 is none.
pub record RedisClient (C : Type 0) : Type 0 where
  pub get : String → Exec C (Option Bytes)
  pub set : String → Bytes → ℤ → Exec C (Unit {0})
  pub del : String → Exec C (Unit {0})
  pub exists : String → Exec C ℕ
  pub pipeline : List (String × Bytes × ℤ) → Exec C (Unit {0})
  pub ping : Exec C (Unit {0})
  pub close : Exec C (Unit {0})
  pub rpush : String → Bytes → Exec C (Unit {0})
  pub lpop : String → Exec C (Option Bytes)
  pub llen : String → Exec C ℕ
  pub lrange : String → ℤ → ℤ → Exec C (List Bytes)
  pub ltrim : String → ℤ → ℤ → Exec C (Unit {0})

-- `RedisKVStore`; the client is what the operations are given.
pub record RedisStore (C : Type 0) : Type 0 where
  pub client : C
  pub closed : Bool

abbrev pub expiration : ℤ → ℤ
expiration ttl = if not_positive ttl then pos 0 else ttl

-- go-redis answers the constructor's ping with an error or not; the options are those that the
-- client library is given.
unfoldable pub new_redis_store :
    {C : Type 0} → RedisClient C → List String → C → Result (RedisStore C)
new_redis_store redis [] c = err (errorf "at least one endpoint is required" [])
new_redis_store redis (e ∷ es) c =
    let (answer, c') = redis.ping c in
    and_then (wrap "failed to connect to Redis" [] answer)
      λ _. ok (record { client = c'; closed = false })

-- The answer to GET.
unfoldable pub reply : String → Result (Option Bytes) → Result Bytes
reply key (ok none) = err (errorf "key not found: %s" (key ∷ []))
reply key (ok (some v)) = ok v
reply key (err e) = err (wrapf "failed to get key %s" (key ∷ []) e)

module _ {C : Type 0} where
  -- The test at the head of each operation but `Close`, and what runs on the client after it.
  unfoldable pub unless_closed : {A : Type 0} → Exec C A → Exec (RedisStore C) A
  unless_closed m s =
      let (r, c) = m s.client in
      if s.closed
      then (err (errorf "KV store is closed" []), s)
      else (r, record { client = c; closed = s.closed })

  module _ (redis : RedisClient C) where
    -- `Get`
    unfoldable pub get : String → Exec (RedisStore C) Bytes
    unfolding unless_closed reply
    get key = unless_closed λ c. let (r, c') = redis.get key c in (reply key r, c')

    -- `Set`
    unfoldable pub set : String → Bytes → ℤ → Exec (RedisStore C) (Unit {0})
    unfolding unless_closed
    set key value ttl =
        unless_closed
          (wrapped "failed to set key %s" (key ∷ []) (redis.set key value (expiration ttl)))

    -- `Delete`
    unfoldable pub delete : String → Exec (RedisStore C) (Unit {0})
    unfolding unless_closed
    delete key = unless_closed (wrapped "failed to delete key %s" (key ∷ []) (redis.del key))

    -- `Exists`
    unfoldable pub exists : String → Exec (RedisStore C) Bool
    unfolding unless_closed
    exists key = unless_closed (
        wrapped "failed to check existence of key %s" (key ∷ []) (redis.exists key) >>= λ count.
        pure (ltb 0 count))

    -- `BatchSet`
    unfoldable pub batch_set : Map Bytes → ℤ → Exec (RedisStore C) (Unit {0})
    unfolding unless_closed
    batch_set items ttl = unless_closed (
        wrapped "failed to batch set keys" []
          (redis.pipeline (map (λ item. (item.0, item.1, expiration ttl)) items)))

    -- `Close`
    unfoldable pub close : Exec (RedisStore C) (Unit {0})
    close s =
        let (r, c) = redis.close s.client in
        if s.closed then (done, s) else (r, record { client = c; closed = true })

    -- `ListPush`
    unfoldable pub list_push : String → Bytes → Exec (RedisStore C) (Unit {0})
    unfolding unless_closed
    list_push key value = unless_closed (redis.rpush key value)

    -- `ListPop`
    unfoldable pub list_pop : String → Exec (RedisStore C) (Option Bytes)
    unfolding unless_closed
    list_pop key = unless_closed (redis.lpop key)

    -- `ListLength`
    unfoldable pub list_length : String → Exec (RedisStore C) ℕ
    unfolding unless_closed
    list_length key = unless_closed (redis.llen key)

    -- `ListRange`
    unfoldable pub list_range : String → ℤ → ℤ → Exec (RedisStore C) (List Bytes)
    unfolding unless_closed
    list_range key start stop = unless_closed (redis.lrange key start stop)

    -- `ListTrim`
    unfoldable pub list_trim : String → ℤ → ℤ → Exec (RedisStore C) (Unit {0})
    unfolding unless_closed
    list_trim key start stop = unless_closed (redis.ltrim key start stop)
