-- ===== src/Drainer/Restart.antt =====
-- `Start` and `Stop`: the flag, the stop channel and the goroutines of one drainer.
-- Channels are numbered in the order in which they are made. A worker reads the drainer's field at
-- each turn, so all workers listen to the channel that it has then, and to the context of their
-- `Start`. `Stop` closes whatever channel the drainer has once it has left the lock.
use shock_absorber.Prelude.{
  ℕ, suc, ◌<◌, ◌≡◌, refl, Bool, true, false, not, ◌&&◌, ◌||◌, List, [], ◌∷◌, if◌then◌else◌, num_eq,
  All, arith, Bool-cases, inl, inr,
}

-- `cancelled` says that the context of the last `Start` is done.
pub record DrainerState : Type 0 where
  pub running : Bool
  pub cancelled : Bool
  pub stop_channel : ℕ
  pub workers : ℕ
  pub closed : List ℕ
  pub next_channel : ℕ
  pub panicked : Bool

-- `NewDrainer`
abbrev pub new_state : DrainerState
new_state = record {
  running = false;
  cancelled = false;
  stop_channel = 0;
  workers = 0;
  closed = [];
  next_channel = 1;
  panicked = false;
}

abbrev pub has : ℕ → List ℕ → Bool
has n [] = false
has n (m ∷ ms) = num_eq m n || has n ms

-- `Start`, with a context that is done or not; the worker of one that is done returns at once.
unfoldable pub start : Bool → DrainerState → DrainerState
start context_done s = if s.running then s else record s {
  running = true;
  cancelled = context_done;
  stop_channel = s.next_channel;
  workers = if context_done then s.workers else suc s.workers;
  next_channel = suc s.next_channel;
}

-- `Stop` up to its unlock: whether it goes on.
unfoldable pub stop_begin : DrainerState → Bool × DrainerState
stop_begin s = if s.running then (true, record s { running = false }) else (false, s)

-- close(d.stopCh), which panics on a closed channel.
unfoldable pub stop_close : DrainerState → DrainerState
stop_close s =
    if has s.stop_channel s.closed
    then record s { panicked = true }
    else record s { closed = s.stop_channel ∷ s.closed }

-- Once the drainer's channel is closed, the workers return at their next turn.
unfoldable pub workers_return : DrainerState → DrainerState
workers_return s = if has s.stop_channel s.closed then record s { workers = 0 } else s

-- `Stop`, when no other call comes in between; it waits for its worker.
unfoldable pub stop : DrainerState → DrainerState
unfolding stop_begin stop_close workers_return
stop s = let (go, s') = stop_begin s in if go then workers_return (stop_close s') else s'

-- The context of the last `Start` is cancelled: its worker returns, and the flag stays as it is.
unfoldable pub cancel : DrainerState → DrainerState
cancel s = record s { cancelled = true; workers = 0 }

-- A `Start` says whether its context is done; `cancels` is the end of the context of the last one.
pub data Call : Type 0 where
  starts : Bool → Call
  stops cancels : Call

unfoldable pub call : Call → DrainerState → DrainerState
unfolding start stop cancel
call (starts context_done) s = start context_done s
call stops s = stop s
call cancels s = cancel s

pub calls : List Call → DrainerState → DrainerState
calls [] s = s
calls (c ∷ cs) s = calls cs (call c s)

-- One worker while the drainer runs and its context is not done, and none otherwise; the channel of
-- a running drainer is open.
abbrev pub IsSound : DrainerState → Type 0
IsSound s =
    (s.panicked ≡ false)
    × All (λ c. c < s.next_channel) s.closed
    × (s.workers ≡ (if s.running && not s.cancelled then 1 else 0))
    × (s.running ≡ true → has s.stop_channel s.closed ≡ false)
    × (s.stop_channel < s.next_channel)

pub has_fresh : (n : ℕ) (cs : List ℕ) → All (λ c. c < n) cs → has n cs ≡ false
has_fresh n [] h = refl
has_fresh n (c ∷ cs) (h, hs) = ground (arith, has_fresh n cs hs)

All-suc : (n : ℕ) (cs : List ℕ) → All (λ c. c < n) cs → All (λ c. c < suc n) cs
All-suc n [] h = tt
All-suc n (c ∷ cs) (h, hs) = (omega arith, All-suc n cs hs)

start-running :
    (context_done : Bool) (s : DrainerState) → s.running ≡ true → start context_done s ≡ s
unfolding start
start-running context_done s e = simp e

started : Bool → DrainerState → DrainerState
started context_done s = record s {
  running = true;
  cancelled = context_done;
  stop_channel = s.next_channel;
  workers = if context_done then s.workers else suc s.workers;
  next_channel = suc s.next_channel;
}

start-stopped :
    (context_done : Bool) (s : DrainerState)
    → s.running ≡ false
    → start context_done s ≡ started context_done s
unfolding start started
start-stopped context_done s e = simp e

started-IsSound :
    (context_done : Bool) (s : DrainerState)
    → s.running ≡ false
    → IsSound s
    → IsSound (started context_done s)
unfolding started
started-IsSound context_done s e (p, older, one, is_open, fresh) =
    let empty : s.workers ≡ 0 = ground (arith, one, e) in
    (
      p,
      All-suc s.next_channel s.closed older,
      ground (arith, empty),
      λ h. has_fresh s.next_channel s.closed older,
      omega arith,
    )

pub start-IsSound :
    (context_done : Bool) (s : DrainerState) → IsSound s → IsSound (start context_done s)
start-IsSound context_done s v = elim (Bool-cases s.running) [
  | inl e ↦ simp (start-running context_done s e) v
  | inr e ↦ simp (start-stopped context_done s e) (started-IsSound context_done s e v)
]

stopped : DrainerState → DrainerState
stopped s = record s { running = false; workers = 0; closed = s.stop_channel ∷ s.closed }

stop-idle : (s : DrainerState) → s.running ≡ false → stop s ≡ s
unfolding stop stop_begin
stop-idle s e = simp e

stop-running :
    (s : DrainerState) → s.running ≡ true → has s.stop_channel s.closed ≡ false → stop s ≡ stopped s
unfolding stop stop_begin stop_close workers_return stopped
stop-running s e is_open = ground arith

stopped-IsSound : (s : DrainerState) → IsSound s → IsSound (stopped s)
unfolding stopped
stopped-IsSound s (p, older, one, is_open, fresh) =
    (p, (fresh, older), refl, λ h. ground arith, fresh)

pub stop-IsSound : (s : DrainerState) → IsSound s → IsSound (stop s)
stop-IsSound s v = elim (Bool-cases s.running) [
  | inl e ↦
      let (_, _, _, is_open, _) = v in simp (stop-running s e (is_open e)) (stopped-IsSound s v)
  | inr e ↦ simp (stop-idle s e) v
]

pub cancel-IsSound : (s : DrainerState) → IsSound s → IsSound (cancel s)
unfolding cancel
cancel-IsSound s (p, older, one, is_open, fresh) = (p, older, ground arith, is_open, fresh)

call-IsSound : (c : Call) (s : DrainerState) → IsSound s → IsSound (call c s)
unfolding call
call-IsSound (starts context_done) s v = start-IsSound context_done s v
call-IsSound stops s v = stop-IsSound s v
call-IsSound cancels s v = cancel-IsSound s v

calls_keep : (cs : List Call) (s : DrainerState) → IsSound s → IsSound (calls cs s)
unfolding calls
calls_keep [] s v = v
calls_keep (c ∷ cs) s v = calls_keep cs (call c s) (call-IsSound c s v)

-- After any sequence of `Start` and `Stop` calls on a new drainer, each of which returns before the
-- next begins, with contexts that are done or not and may end in between: nothing has panicked, there
-- is one worker while the drainer is running and the context of its `Start` is not done, and none
-- otherwise, and the stop channel of a running drainer is open.
pub calls-IsSound : (cs : List Call) → IsSound (calls cs new_state)
calls-IsSound cs = calls_keep cs new_state (refl, tt, refl, λ h. refl, omega arith)

-- A cancelled context ends the worker behind the drainer's back: `Start` afterwards does nothing, so
-- a drainer that still says that it runs has no worker.
pub start_after_cancel :
    (context_done : Bool) (s : DrainerState)
    → s.running ≡ true
    → (start context_done (cancel s) ≡ cancel s)
      × ((start context_done (cancel s)).running ≡ true)
      × ((start context_done (cancel s)).workers ≡ 0)
unfolding cancel
start_after_cancel context_done s e = rw (start-running context_done (cancel s) e) (refl, e, refl)
