-- ===== src/Tests/Queues.antt =====
-- The theorems on the queues, at small queues.
use shock_absorber.Prelude.{
  ℕ, String, pos, ◌≡◌, ◌≢◌, refl, true, false, List, [], ◌∷◌, none, some, take, drop, eq_iff, arith,
  if◌then◌else◌, ◌==◌,
}
use shock_absorber.WriteBack.Memory.{MemoryQueue, positive_or}
use shock_absorber.WriteBack.Memory.Fifo.{
  run-new_trace-Inv, Inv, run, new_trace, enqueues, dequeues, closes,
}
use shock_absorber.WriteBack.Memory.Race.{close_races_enqueue, Reach, start, panicked}
use shock_absorber.WriteBack.Redis.{get_queue_key, get_global_queue_key, enqueue, stamped}
use shock_absorber.WriteBack.Redis as redis
use shock_absorber.WriteBack.Redis.Lists.{dequeue_global, operations_of}
use shock_absorber.WriteBack.Redis.Sharing.{queues_share_operations}
use shock_absorber.Tests.Servers.{
  memory_lists, memory_lists_laws, listed, no_lists, operation_on, sample_codec, sample_queue,
}

abbrev open_memory : MemoryQueue
open_memory = record {
  queue = some (operation_on "users") ∷ some (operation_on "orders") ∷ [];
  closed = false;
  size = 4;
}

run-new_trace-Inv_example : Inv (
    run (new_trace (pos 2)) (
      enqueues false true (operation_on "users")
      ∷ dequeues (pos 5) true (λ n. false)
      ∷ closes
      ∷ []))
run-new_trace-Inv_example =
    run-new_trace-Inv (pos 2) (
      enqueues false true (operation_on "users") ∷ dequeues (pos 5) true (λ n. false) ∷ closes ∷ [])

close_races_enqueue_example :
    Reach
      (some (operation_on "users"))
      (record { q = open_memory; phase = start })
      (record { q = record open_memory { closed = true }; phase = panicked })
close_races_enqueue_example = close_races_enqueue (some (operation_on "users")) open_memory refl

users_not_global : ◌≢◌ {A = String} "users" "global"
users_not_global = ground (arith, eq_iff "users" "global")

users_not_empty : ◌≢◌ {A = String} "users" ""
users_not_empty = ground (arith, eq_iff "users" "")

-- One text in the global list.
abbrev one_text : String → List (List ℕ)
one_text k = if k == "wbq:global" then (7 ∷ []) ∷ [] else []

dequeue_global_example :
    let (batch, s') = redis.dequeue sample_codec sample_queue (pos 1) one_text in
    (batch ≡ (
      operations_of sample_codec
          (take (positive_or 100 (pos 1)) (listed one_text (get_global_queue_key sample_queue))),
      none,
    ))
    × (listed s' (get_global_queue_key sample_queue)
        ≡ drop (positive_or 100 (pos 1)) (listed one_text (get_global_queue_key sample_queue)))
    × (listed s' (get_queue_key sample_queue "users")
        ≡ listed one_text (get_queue_key sample_queue "users"))
dequeue_global_example =
    dequeue_global memory_lists listed memory_lists_laws sample_codec sample_queue refl refl (pos 1)
      "users" one_text users_not_global

queues_share_operations_example :
    (redis.dequeue sample_codec sample_queue
      (pos 1)
      (enqueue sample_codec 9 sample_queue (some (operation_on "users")) no_lists).1).0
    ≡ (operation_on "users" ∷ [], none)
queues_share_operations_example =
    queues_share_operations memory_lists listed memory_lists_laws sample_codec sample_queue refl
      refl sample_queue 9 (pos 1) (operation_on "users") (7 ∷ []) no_lists refl refl refl refl
      users_not_empty users_not_global refl refl
