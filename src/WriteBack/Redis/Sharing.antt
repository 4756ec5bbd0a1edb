-- ===== src/WriteBack/Redis/Sharing.antt =====
-- Queue objects over one server: the client makes one for each table, with one prefix
-- (`createTableInstance` of internal/client/client.go), and each drainer calls `Dequeue`.
use shock_absorber.Prelude.{
  ℕ, suc, String, ℤ, pos, negsuc, zero, ◌≡◌, ◌≢◌, refl, ap, ◌∙◌, false, List, [], ◌∷◌, ◌++◌, none,
  some, ok, take, sprintf,
}
use shock_absorber.Core.{WriteOperation}
use shock_absorber.Store.{Bytes, ListOps, ListLaws}
use shock_absorber.WriteBack.Memory.{positive_or}
use shock_absorber.WriteBack.Redis.{
  Codec, RedisQueue, get_queue_key, get_global_queue_key, enqueue, dequeue, decoded, stamped,
}
use shock_absorber.WriteBack.Redis.Lists.{operations_of, dequeue_global, enqueue_lists}

-- The state after a row of `Dequeue` calls.
pub dequeue_all : {S : Type 0} → Codec → RedisQueue S → List ℤ → S → S
dequeue_all codec q [] s = s
dequeue_all codec q (b ∷ bs) s = dequeue_all codec q bs (dequeue codec q b s).1

take_one : (b : ℤ) (x : Bytes) → take (positive_or 100 b) (x ∷ []) ≡ x ∷ []
take_one (pos zero) x = refl
take_one (pos (suc zero)) x = refl
take_one (pos (suc (suc n))) x = refl
take_one (negsuc n) x = refl

module _ {S : Type 0} (ops : ListOps S) (contents : S → String → List Bytes)
    (laws : ListLaws ops contents) (codec : Codec) (q : RedisQueue S) (has_ops : q.ops ≡ some ops)
    (open_queue : q.closed ≡ false) where
  -- No `Dequeue`, and no row of them, takes anything out of the list of a table.
  dequeue_all-table :
      (table : String) (bs : List ℤ) (s : S)
      → table ≢ "global"
      → contents (dequeue_all codec q bs s) (get_queue_key q table)
        ≡ contents s (get_queue_key q table)
  unfolding dequeue_all
  dequeue_all-table table [] s h = refl
  dequeue_all-table table (b ∷ bs) s h =
      dequeue_all-table table bs (dequeue codec q b s).1 h
      ∙ (dequeue_global ops contents laws codec q has_ops open_queue b table s h).2

  -- The text of an operation that an open queue accepts, on a table of any name but the empty one
  -- and "global", stays in the list of its table, however often and with whatever batch sizes
  -- `Dequeue` is called afterwards: that list only grows.
  pub table_list_keeps :
      (clock : ℕ) (op : WriteOperation) (bytes : Bytes) (bs : List ℤ) (s : S)
      → op.table ≢ ""
      → op.table ≢ "global"
      → codec.encode (stamped clock op) ≡ ok bytes
      → contents
          (dequeue_all codec q bs (enqueue codec clock q (some op) s).1)
          (get_queue_key q op.table)
        ≡ contents s (get_queue_key q op.table) ++ bytes ∷ []
  table_list_keeps clock op bytes bs s named h e =
      dequeue_all-table op.table bs (enqueue codec clock q (some op) s).1 h
      ∙ (enqueue_lists ops contents laws codec q has_ops open_queue clock op bytes s named h e).1

  -- What an open queue object accepts while the global list is empty, on a table of any name but
  -- the empty one and "global" and with a text that decodes to the operation, the `Dequeue` of any
  -- other open object with the same prefix on the same server hands out: the operations of all
  -- tables share one list.
  pub queues_share_operations :
      (other : RedisQueue S) (clock : ℕ) (b : ℤ) (op : WriteOperation) (bytes : Bytes) (s : S)
      → other.ops ≡ some ops
      → other.closed ≡ false
      → other.prefix ≡ q.prefix
      → contents s (get_global_queue_key q) ≡ []
      → op.table ≢ ""
      → op.table ≢ "global"
      → codec.encode (stamped clock op) ≡ ok bytes
      → codec.decode bytes ≡ some (stamped clock op)
      → (dequeue codec other b (enqueue codec clock q (some op) s).1).0
        ≡ (stamped clock op ∷ [], none)
  queues_share_operations other clock b op bytes s has open_other same nothing named h e d =
      let after = (enqueue codec clock q (some op) s).1 in
      let queued : contents after (get_global_queue_key other) ≡ bytes ∷ [] =
        ap (λ (p : String). contents after (sprintf (p ∷ ":" ∷ "global" ∷ []))) same
        ∙ (enqueue_lists ops contents laws codec q has_ops open_queue clock op bytes s named h e).2
        ∙ ap (λ (l : List Bytes). l ++ bytes ∷ []) nothing in
      (dequeue_global ops contents laws codec other has open_other b op.table after h).0
      ∙ ap (λ (l : List Bytes). (operations_of codec (take (positive_or 100 b) l), none)) queued
      ∙ ap (λ (l : List Bytes). (operations_of codec l, none)) (take_one b bytes)
      ∙ ap (λ d. (decoded d [], none)) d
