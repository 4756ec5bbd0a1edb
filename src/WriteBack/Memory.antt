-- ===== src/WriteBack/Memory.antt =====
-- internal/writeback/memory_queue.go: a queue over a buffered channel.
-- An entry of the channel is a pointer, which may be nil. `cancelled` says that the context is done;
-- where a `select` finds two cases ready, `pick` says that it takes the channel's.
pub mod Fifo
pub mod Race
use shock_absorber.Prelude.{
  ℕ, zero, suc, String, ℤ, pos, negsuc, Bool, true, false, not, ◌&&◌, ◌||◌, List, [], ◌∷◌, ◌++◌,
  Option, none, some, Error, errorf, Done, done, err, Exec, length, ltb, not_positive,
  if◌then◌else◌,
}
use shock_absorber.Core.{WriteOperation}

pub record MemoryQueue : Type 0 where
  pub queue : List (Option WriteOperation)
  pub closed : Bool
  pub size : ℕ

abbrev pub err_memory_queue_closed : Error
err_memory_queue_closed = errorf "memory queue is closed" []

abbrev pub err_queue_full : Error
err_queue_full = errorf "memory queue is full" []

-- ctx.Err()
abbrev pub ctx_err : Error
ctx_err = errorf "context canceled" []

-- A count that is not positive stands for the default.
abbrev pub positive_or : ℕ → ℤ → ℕ
positive_or d (pos zero) = d
positive_or d (pos (suc n)) = suc n
positive_or d (negsuc n) = d

-- `NewMemoryQueue`
pub new_memory_queue : ℤ → MemoryQueue
new_memory_queue buffer_size = record {
  queue = [];
  closed = false;
  size = positive_or 10000 buffer_size;
}

-- `Enqueue`
unfoldable pub enqueue : Bool → Bool → Option WriteOperation → Exec MemoryQueue (Unit {0})
enqueue cancelled pick operation q =
    if q.closed
    then (err err_memory_queue_closed, q)
    else if ltb (length q.queue) q.size && (not cancelled || pick)
    then (done, record q { queue = q.queue ++ operation ∷ [] })
    else if cancelled
    then (err ctx_err, q)
    else (err err_queue_full, q)

-- What `Dequeue` returns: the operations, and an error or nil.
abbrev pub Batch : Type 0
Batch = List WriteOperation × Option Error

abbrev add_operation :
    WriteOperation → Batch × List (Option WriteOperation) → Batch × List (Option WriteOperation)
add_operation op ((ops, e), rest) = ((op ∷ ops, e), rest)

-- The loop of `Dequeue`: a receive yields nil for a nil entry, and on a closed, empty channel too;
-- an open, empty channel takes the context's case if that is ready, and the default if not.
unfoldable pub receive :
    Bool
    → ℕ
    → Bool
    → (ℕ → Bool)
    → List (Option WriteOperation)
    → Batch × List (Option WriteOperation)
receive closed zero cancelled picks entries = (([], none), entries)
receive closed (suc n) cancelled picks [] =
    (([], if cancelled && not (closed && picks n) then some ctx_err else none), [])
receive closed (suc n) cancelled picks (none ∷ rest) =
    if cancelled && not (picks n) then (([], some ctx_err), none ∷ rest) else (([], none), rest)
receive closed (suc n) cancelled picks (some op ∷ rest) =
    let more = receive closed n cancelled picks rest in
    if cancelled && not (picks n)
    then (([], some ctx_err), some op ∷ rest)
    else add_operation op more

-- `Dequeue`
unfoldable pub dequeue : ℤ → Bool → (ℕ → Bool) → MemoryQueue → Batch × MemoryQueue
unfolding receive
dequeue batch_size cancelled picks q =
    let (batch, rest) = receive q.closed (positive_or 100 batch_size) cancelled picks q.queue in
    (batch, record q { queue = rest })

-- `Size`
unfoldable pub size : MemoryQueue → ℕ
size q = length q.queue

-- `Close`: closing a channel keeps what it buffers.
pub close : Exec MemoryQueue (Unit {0})
close q = (done, record q { closed = true })
