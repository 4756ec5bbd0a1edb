-- ===== src/WriteBack/Memory/Race.antt =====
-- `Enqueue` tests `closed` under the lock and sends after releasing it; `Close` may run in between.
-- Sending on a closed channel panics.
use shock_absorber.Prelude.{◌≡◌, refl, true, false, ◌∷◌, [], ◌++◌, Option, length, ltb, ◌≢◌, arith}
use shock_absorber.Core.{WriteOperation}
use shock_absorber.WriteBack.Memory.{MemoryQueue}

-- Where the goroutine that enqueues stands.
pub data Phase : Type 0 where
  start checked sent refused full panicked : Phase

pub record Shared : Type 0 where
  pub q : MemoryQueue
  pub phase : Phase

-- One step of the goroutine that runs `Enqueue`, or a call of `Close` by another.
pub data Step (op : Option WriteOperation) (s : Shared) (t : Shared) : Type 0 where
  check_open : s.phase ≡ start → s.q.closed ≡ false → t ≡ record s { phase = checked } → Step op s t
  check_closed :
      s.phase ≡ start → s.q.closed ≡ true → t ≡ record s { phase = refused } → Step op s t
  send :
      s.phase ≡ checked
      → s.q.closed ≡ false
      → ltb (length s.q.queue) s.q.size ≡ true
      → t ≡ record { q = record s.q { queue = s.q.queue ++ op ∷ [] }; phase = sent }
      → Step op s t
  send_full :
      s.phase ≡ checked
      → s.q.closed ≡ false
      → ltb (length s.q.queue) s.q.size ≡ false
      → t ≡ record s { phase = full }
      → Step op s t
  send_closed :
      s.phase ≡ checked → s.q.closed ≡ true → t ≡ record s { phase = panicked } → Step op s t
  close : t ≡ record s { q = record s.q { closed = true } } → Step op s t

pub data Reach (op : Option WriteOperation) (s : Shared) : Shared → Type 0 where
  here : Reach op s s
  next : {t u : Shared} → Reach op s t → Step op t u → Reach op s u

-- From every open queue, full or not, there is an interleaving of `Enqueue` with one `Close` in
-- which the enqueueing goroutine panics.
pub close_races_enqueue :
    (op : Option WriteOperation) (q : MemoryQueue)
    → q.closed ≡ false
    → Reach op
        (record { q = q; phase = start })
        (record { q = record q { closed = true }; phase = panicked })
close_races_enqueue op q h =
    next {t = record { q = record q { closed = true }; phase = checked }}
      (next {t = record { q = q; phase = checked }} (next here (check_open refl h refl))
        (close refl))
      (send_closed refl refl refl)

abbrev pub IsSafe : Shared → Type 0
IsSafe s = (s.q.closed ≡ true) × (s.phase ≢ checked) × (s.phase ≢ sent) × (s.phase ≢ panicked)

Step-IsSafe : (op : Option WriteOperation) (s t : Shared) → Step op s t → IsSafe s → IsSafe t
Step-IsSafe op s t (check_open p c e) h = ground arith
Step-IsSafe op s t (check_closed p c e) h = ground arith
Step-IsSafe op s t (send p c r e) h = ground arith
Step-IsSafe op s t (send_full p c r e) h = ground arith
Step-IsSafe op s t (send_closed p c e) h = ground arith
Step-IsSafe op s t (close e) h = ground arith

-- An `Enqueue` that has not passed its test when the queue is closed neither sends nor panics, in
-- any interleaving.
pub closed_never_sends :
    (op : Option WriteOperation) (s t : Shared) → IsSafe s → Reach op s t → IsSafe t
closed_never_sends op s s' h here = h
closed_never_sends op s t h (next {t = u} r st) =
    Step-IsSafe op u t st (closed_never_sends op s u h r)
