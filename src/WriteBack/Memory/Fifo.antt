-- ===== src/WriteBack/Memory/Fifo.antt =====
-- The queue is first in, first out: over any history nothing is lost, duplicated or reordered.
use mathlib.Core.List.{map-append}
use shock_absorber.Prelude.{
  Result-cases, ◌⊎◌, Error, length-map, ℕ, zero, suc, ◌≤◌, ◌<◌, ℤ, ◌≡◌, refl, sym, ap, ◌∙◌, Bool,
  false, not, ◌&&◌, List, [], ◌∷◌, ◌++◌, map, Option, none, some, Done, done, ok, err, length, take,
  drop, append_assoc, arith, length-append, Bool-cases, inl, inr,
}
use shock_absorber.Core.{WriteOperation}
use shock_absorber.WriteBack.Memory.{
  MemoryQueue, Batch, enqueue, receive, dequeue, close, positive_or, new_memory_queue,
}

-- What `Dequeue` returns and what it leaves are the entries, split in two.
abbrev Splits : List WriteOperation → Batch × List (Option WriteOperation) → Type 0
Splits ops r = (left : List WriteOperation) × (r.1 ≡ map some left) × (ops ≡ r.0.0 ++ left)

receive-Splits :
    (closed : Bool) (n : ℕ) (cancelled : Bool) (picks : ℕ → Bool) (ops : List WriteOperation)
    → Splits ops (receive closed n cancelled picks (map some ops))
unfolding receive
receive-Splits closed zero cancelled picks ops = (ops, refl, refl)
receive-Splits closed (suc n) cancelled picks [] = ([], refl, ground arith)
receive-Splits closed (suc n) cancelled picks (op ∷ ops) =
    elim (Bool-cases (cancelled && not (picks n))) [
      | inl stop ↦ rw stop (op ∷ ops, refl, refl)
      | inr go ↦
          let (left, e, f) = receive-Splits closed n cancelled picks ops in
          rw go (left, e, ap (◌∷◌ op) f)
    ]

receive-take :
    (closed : Bool) (n : ℕ) (picks : ℕ → Bool) (ops : List WriteOperation)
    → receive closed n false picks (map some ops) ≡ ((take n ops, none), map some (drop n ops))
unfolding receive
receive-take closed zero picks ops = refl
receive-take closed (suc n) picks [] = refl
receive-take closed (suc n) picks (op ∷ ops) = rw (receive-take closed n picks ops)

-- With a live context `Dequeue` hands out the oldest operations, as many as there are up to the
-- batch size, in the order in which they came in, with no error, and keeps the rest in order.
pub dequeue_oldest :
    (b : ℤ) (picks : ℕ → Bool) (ops : List WriteOperation) (q : MemoryQueue)
    → q.queue ≡ map some ops
    → dequeue b false picks q ≡ (
      (take (positive_or 100 b) ops, none),
      record q { queue = map some (drop (positive_or 100 b) ops) },
    )
unfolding dequeue
dequeue_oldest b picks ops q e =
    rw (e, dequeue) (rw (receive-take q.closed (positive_or 100 b) picks ops))

-- The calls on a queue; a client enqueues operations, never nil.
pub data Call : Type 0 where
  enqueues : Bool → Bool → WriteOperation → Call
  dequeues : ℤ → Bool → (ℕ → Bool) → Call
  closes : Call

-- A queue with the operations that it has accepted and delivered so far.
pub record Trace : Type 0 where
  pub queue : MemoryQueue
  pub accepted : List WriteOperation
  pub delivered : List WriteOperation

abbrev note : WriteOperation → Done → List WriteOperation → List WriteOperation
note op (ok a) ops = ops ++ op ∷ []
note op (err e) ops = ops

pub step : Trace → Call → Trace
step t (enqueues cancelled pick op) =
    let (r, q) = enqueue cancelled pick (some op) t.queue in
    record t { queue = q; accepted = note op r t.accepted }
step t (dequeues b cancelled picks) =
    let (batch, q) = dequeue b cancelled picks t.queue in
    record t { queue = q; delivered = t.delivered ++ batch.0 }
step t closes = record t { queue = (close t.queue).1 }

pub run : Trace → List Call → Trace
run t [] = t
run t (c ∷ cs) = run (step t c) cs

pub record Inv (t : Trace) : Type 0 where
  pub pending : List WriteOperation
  pub entries : t.queue.queue ≡ map some pending
  pub balance : t.accepted ≡ t.delivered ++ pending
  pub bounded : length t.queue.queue ≤ t.queue.size

-- `Enqueue` adds the operation where there is room, or changes nothing and returns an error.
enqueue_cases :
    (cancelled pick : Bool) (op : Option WriteOperation) (q : MemoryQueue)
    → ((enqueue cancelled pick op q ≡ (done, record q { queue = q.queue ++ op ∷ [] }))
        × (length q.queue < q.size))
      ⊎ ((e : Error) × (enqueue cancelled pick op q ≡ (err e, q)))
unfolding enqueue
enqueue_cases cancelled pick op q = elim (Result-cases (enqueue cancelled pick op q).0) [
  | inl (_, e) ↦ inl (ground arith)
  | inr (x, e) ↦ inr (x, ground arith)
]

enqueue-Inv :
    (cancelled pick : Bool) (op : WriteOperation) (t : Trace)
    → Inv t
    → Inv (step t (enqueues cancelled pick op))
unfolding step
enqueue-Inv cancelled pick op t v = elim (enqueue_cases cancelled pick (some op) t.queue) [
  | inl (e, room) ↦
      rw (e, step)
        (record {
          pending = v.pending ++ op ∷ [];
          entries = rw (v.entries, map-append) refl;
          balance = rw v.balance (append_assoc t.delivered v.pending (op ∷ []));
          bounded = omega (arith, length-append t.queue.queue (some op ∷ []));
        })
  | inr (x, e) ↦
      rw (e, step)
        (record {
          pending = v.pending;
          entries = v.entries;
          balance = v.balance;
          bounded = v.bounded;
        })
]

dequeue-Inv :
    (b : ℤ) (cancelled : Bool) (picks : ℕ → Bool) (t : Trace)
    → Inv t
    → Inv (step t (dequeues b cancelled picks))
unfolding step dequeue
dequeue-Inv b cancelled picks t v =
    let (left, e, f) =
      receive-Splits t.queue.closed (positive_or 100 b) cancelled picks v.pending in
    record {
      pending = left;
      entries = rw v.entries e;
      balance =
          rw (v.balance, v.entries)
            (ap (◌++◌ t.delivered) f
              ∙ sym (
                  append_assoc t.delivered
                    (receive t.queue.closed (positive_or 100 b) cancelled picks
                      (map some v.pending)).0.0
                    left));
      bounded = omega (
        arith,
        v.bounded,
        ap length e,
        ap length v.entries,
        ap length f,
        length-map some left,
        length-map some v.pending,
        length-append
            (receive t.queue.closed (positive_or 100 b) cancelled picks (map some v.pending)).0.0
            left,
        ap
            (λ (es : List (Option WriteOperation)).
              length (receive t.queue.closed (positive_or 100 b) cancelled picks es).1)
            v.entries,
      );
    }

step-Inv : (t : Trace) (c : Call) → Inv t → Inv (step t c)
unfolding step close
step-Inv t (enqueues cancelled pick op) v = enqueue-Inv cancelled pick op t v
step-Inv t (dequeues b cancelled picks) v = dequeue-Inv b cancelled picks t v
step-Inv t closes v = record {
  pending = v.pending;
  entries = v.entries;
  balance = v.balance;
  bounded = v.bounded;
}

run_keeps : (t : Trace) (cs : List Call) → Inv t → Inv (run t cs)
unfolding run
run_keeps t [] v = v
run_keeps t (c ∷ cs) v = run_keeps (step t c) cs (step-Inv t c v)

abbrev pub new_trace : ℤ → Trace
new_trace n = record { queue = new_memory_queue n; accepted = []; delivered = [] }

-- From a new queue, after any history of `Enqueue`, `Dequeue` and `Close`, with live or cancelled
-- contexts: what was accepted is what was delivered followed by what the channel still holds, in
-- order, and the channel holds no more than its capacity.
pub run-new_trace-Inv : (n : ℤ) (cs : List Call) → Inv (run (new_trace n) cs)
unfolding new_memory_queue
run-new_trace-Inv n cs =
    run_keeps (new_trace n) cs
      (record { pending = []; entries = refl; balance = refl; bounded = omega arith })
