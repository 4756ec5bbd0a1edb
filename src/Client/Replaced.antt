-- ===== src/Client/Replaced.antt =====
-- pkg/shockabsorber/client.go: the drainers that a later one replaced in the map of the client.
use shock_absorber.Prelude.{
  ℕ, String, ◌≡◌, Bool, ap, ◌∙◌, List, [], ◌∷◌, ◌++◌, Option, some, none, lookup, Result, ok, err,
  Done, arith,
}
use shock_absorber.Core.{Schema}
use shock_absorber.Drainer.Manager.{Drainer, get_drainer}
use shock_absorber.Client.Ops.{ClientImpl}
use shock_absorber.Client.Ops as Ops
use shock_absorber.Client.Wrapper.{
  ClientWrapper, TableOption, track, track_enabled, to_list, enable_kv, disable_kv, start_client,
  stop_client, close,
}
use shock_absorber.Client.Runs.{
  ClientCall, enables, disables, starts, stops, cancels, closes, call, calls,
}

to_list-append :
    {A : Type 0} (o : Option A) (x : A) (l older newer : List A)
    → l ≡ newer ++ x ∷ older
    → to_list o ++ l ≡ (to_list o ++ newer) ++ x ∷ older
unfolding to_list
to_list-append none x l older newer e = e
to_list-append (some y) x l older newer e = ap (λ l. y ∷ l) e

module _ {E V : Type 0} where
  -- A drainer that is on the heap beside the map.
  abbrev pub IsReplaced : Drainer V → ClientWrapper E V → Type 0
  IsReplaced d cw =
      (older : List (Drainer V)) × (newer : List (Drainer V)) × (cw.replaced ≡ newer ++ d ∷ older)

  track_enabled-IsReplaced :
      (d : Drainer V) (context_done : Bool) (name : String) (opts : List TableOption)
      (backends : ℕ → V) (r : Result ℕ) (cw : ClientWrapper E V)
      → IsReplaced d cw
      → IsReplaced d (track_enabled context_done name opts backends r cw).1
  unfolding track_enabled track
  track_enabled-IsReplaced d context_done name opts backends (err e) cw h = h
  track_enabled-IsReplaced d context_done name opts backends (ok table) cw (older, newer, e) =
      let more = to_list (lookup name cw.drainer_manager.drainers) in
      (
        older,
        more ++ newer,
        to_list-append (lookup name cw.drainer_manager.drainers) d cw.replaced older newer e,
      )

  tracked-IsReplaced :
      (context_done : Bool) (name : String) (opts : List TableOption) (backends : ℕ → V)
      (r : Result ℕ) (table : ℕ) (d : Drainer V) (cw : ClientWrapper E V)
      → lookup name cw.drainer_manager.drainers ≡ some d
      → (track_enabled context_done name opts backends r cw).0 ≡ ok table
      → IsReplaced d (track_enabled context_done name opts backends r cw).1
  unfolding track_enabled track to_list
  tracked-IsReplaced context_done name opts backends (err x) table d cw there e = cc
  tracked-IsReplaced context_done name opts backends (ok t) table d cw there e =
      (cw.replaced, [], ap (λ o. to_list o ++ cw.replaced) there)

  start_client-replaced :
      (context_done : Bool) (cw : ClientWrapper E V)
      → (start_client context_done cw).replaced ≡ cw.replaced
  unfolding start_client
  start_client-replaced context_done cw = ground arith

  stop_client-replaced : (cw : ClientWrapper E V) → (stop_client cw).replaced ≡ cw.replaced
  unfolding stop_client
  stop_client-replaced cw = ground arith

  call-IsReplaced :
      (d : Drainer V) (c : ClientCall V) (cw : ClientWrapper E V)
      → IsReplaced d cw
      → IsReplaced d (call c cw)
  unfolding call enable_kv disable_kv close
  call-IsReplaced d (enables context_done name opts backends now fresh schema kafka) cw h =
      let (r, impl) = Ops.enable_kv name now fresh schema kafka cw.impl in
      track_enabled-IsReplaced d context_done name opts backends r (record cw { impl = impl }) h
  call-IsReplaced d (disables name now) cw h = h
  call-IsReplaced d (cancels name) cw h = h
  call-IsReplaced d (starts context_done) cw (older, newer, e) =
      (older, newer, start_client-replaced context_done cw ∙ e)
  call-IsReplaced d stops cw (older, newer, e) = (older, newer, stop_client-replaced cw ∙ e)
  call-IsReplaced d (closes format kv database) cw (older, newer, e) =
      (older, newer, stop_client-replaced cw ∙ e)

  calls-IsReplaced :
      (d : Drainer V) (cs : List (ClientCall V)) (cw : ClientWrapper E V)
      → IsReplaced d cw
      → IsReplaced d (calls cs cw)
  unfolding calls
  calls-IsReplaced d [] cw h = h
  calls-IsReplaced d (c ∷ cs) cw h = calls-IsReplaced d cs (call c cw) (call-IsReplaced d c cw h)

  -- Where a table has a drainer and `EnableKV` on it succeeds, whatever calls follow, `Stop` and
  -- `Close` among them, that drainer stays on the heap as it was, running if it ran: only the end of its own context, which
  -- is no call of the client, ends its worker.
  pub enable_kv_leaks :
      (context_done : Bool) (name : String) (opts : List TableOption) (backends : ℕ → V)
      (now fresh table : ℕ) (schema : Result Schema) (kafka : Done) (d : Drainer V)
      (cw : ClientWrapper E V) (cs : List (ClientCall V))
      → get_drainer name cw.drainer_manager ≡ some d
      → (enable_kv context_done name opts backends now fresh schema kafka cw).0 ≡ ok table
      → IsReplaced d
          (calls cs (enable_kv context_done name opts backends now fresh schema kafka cw).1)
  unfolding get_drainer enable_kv
  enable_kv_leaks context_done name opts backends now fresh table schema kafka d cw cs there e =
      let (r, impl) = Ops.enable_kv name now fresh schema kafka cw.impl in
      calls-IsReplaced d cs (enable_kv context_done name opts backends now fresh schema kafka cw).1
        (tracked-IsReplaced context_done name opts backends r table d (record cw { impl = impl })
          there e)
