-- ===== src/Store.antt =====
-- internal/core/kvstore.go and internal/writeback/redis_queue_ops.go: what a key-value store offers.
-- The servers behind it are outside the repository, so `S` is their state and the operations are
-- parameters; `ListLaws` is what Redis documents for RPUSH, LPOP and LLEN, `KvLaws` for GET, SET
-- and DEL of keys that do not expire meanwhile.
use shock_absorber.Prelude.{
  is_some, ℕ, String, ℤ, ◌≡◌, Bool, List, [], ◌∷◌, ◌++◌, Option, none, some, Map, ok, err, Error,
  done, Exec, if◌then◌else◌, ◌==◌, length,
}

abbrev pub Bytes : Type 0
Bytes = List ℕ

-- core.KVStore; a time-to-live is in nanoseconds.
pub record KvOps (S : Type 0) : Type 0 where
  pub get : String → Exec S Bytes
  pub set : String → Bytes → ℤ → Exec S (Unit {0})
  pub delete : String → Exec S (Unit {0})
  pub exists : String → Exec S Bool
  pub batch_set : Map Bytes → ℤ → Exec S (Unit {0})

-- RedisQueueOperations
pub record ListOps (S : Type 0) : Type 0 where
  pub list_push : String → Bytes → Exec S (Unit {0})
  pub list_pop : String → Exec S (Option Bytes)
  pub list_length : String → Exec S ℕ

abbrev pub tail_of {ℓ} : {A : Type ℓ} → List A → List A
tail_of [] = []
tail_of (x ∷ xs) = xs

-- The server answers; `contents s k` is the list under the key `k`.
pub record ListLaws {S : Type 0} (ops : ListOps S) (contents : S → String → List Bytes)
    : Type 0 where
  pub push_ok : (k : String) (v : Bytes) (s : S) → (ops.list_push k v s).0 ≡ done
  pub push_contents :
      (k j : String) (v : Bytes) (s : S)
      → contents (ops.list_push k v s).1 j
        ≡ (if k == j then contents s k ++ v ∷ [] else contents s j)
  pub pop_empty : (k : String) (s : S) → contents s k ≡ [] → (ops.list_pop k s).0 ≡ ok none
  pub pop_first :
      (k : String) (s : S) (v : Bytes) (vs : List Bytes)
      → contents s k ≡ v ∷ vs
      → (ops.list_pop k s).0 ≡ ok (some v)
  pub pop_contents :
      (k j : String) (s : S)
      → contents (ops.list_pop k s).1 j ≡ (if k == j then tail_of (contents s k) else contents s j)
  pub length_contents : (k : String) (s : S) → ops.list_length k s ≡ (ok (length (contents s k)), s)

-- The server answers; `contents s k` is what stands under the key `k`.
pub record KvLaws {S : Type 0} (kv : KvOps S) (contents : S → String → Option Bytes) : Type 0 where
  pub get_present :
      (k : String) (v : Bytes) (s : S) → contents s k ≡ some v → kv.get k s ≡ (ok v, s)
  pub get_absent :
      (k : String) (s : S) → contents s k ≡ none → (e : Error) × (kv.get k s ≡ (err e, s))
  pub exists_contents : (k : String) (s : S) → kv.exists k s ≡ (ok (is_some (contents s k)), s)
  pub set_ok : (k : String) (v : Bytes) (ttl : ℤ) (s : S) → (kv.set k v ttl s).0 ≡ done
  pub set_contents :
      (k j : String) (v : Bytes) (ttl : ℤ) (s : S)
      → contents (kv.set k v ttl s).1 j ≡ (if k == j then some v else contents s j)
  pub delete_ok : (k : String) (s : S) → (kv.delete k s).0 ≡ done
  pub delete_contents :
      (k j : String) (s : S)
      → contents (kv.delete k s).1 j ≡ (if k == j then none else contents s j)
