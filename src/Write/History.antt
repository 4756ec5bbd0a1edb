-- ===== src/Write/History.antt =====
-- internal/write/buffer.go: what any sequence of calls leaves in the buffer and in a KV store that answers.
use shock_absorber.Prelude.{
  ◌≡◌, refl, ap, sym, subst, ◌∙◌, String, ℤ, true, false, false≢true, ◌⊎◌, inl, inr, List, [], ◌∷◌,
  ◌++◌, append-nil, append_assoc, All, Option, is_ok, Done, done, Exec, if◌then◌else◌, arith,
}
use shock_absorber.Store.{Bytes, KvOps}
use shock_absorber.Table.State.{WalOperation}
use shock_absorber.Write.Buffer.{BufferedWrite, WriteBuffer, Group, set_each, write, flush, close}
use shock_absorber.Write.Flushes.{BatchLaws, flush_is_sequential}
use shock_absorber.Write.Plain.{IsPlain, plain-OfTtl, plain_operations, IsPlain-append}

pub data BufferCall : Type 0 where
  writes : BufferedWrite → BufferCall
  -- Of a user, or of the goroutine `flusher`.
  flushes : BufferCall
  closes : BufferCall

abbrev pub WritesPlain : ℤ → BufferCall → Type 0
WritesPlain ttl (writes w) = IsPlain ttl w
WritesPlain ttl c = Unit

module _ {S : Type 0} (kv : KvOps S) (append : WalOperation → Exec S (Unit {0}))
    (arrange : List Group → List Group) where
  unfoldable pub buffer_call : BufferCall → Exec (WriteBuffer × S) (Unit {0})
  buffer_call (writes w) (b, s) = let (r, b') = write w b in (r, (b', s))
  buffer_call flushes (b, s) = flush kv append arrange (b, s)
  buffer_call closes (b, s) = close kv append arrange (b, s)

  unfoldable pub buffer_calls : List BufferCall → WriteBuffer × S → WriteBuffer × S
  buffer_calls [] p = p
  buffer_calls (c ∷ cs) p = buffer_calls cs (buffer_call c p).1

  -- The write of a call, if it returned no error.
  unfoldable pub taken : BufferCall → Done → List BufferedWrite
  taken (writes w) r = if is_ok r then w ∷ [] else []
  taken c r = []

  -- The writes that the buffer took.
  unfoldable pub accepted : List BufferCall → WriteBuffer × S → List BufferedWrite
  unfolding taken
  accepted [] p = []
  accepted (c ∷ cs) p = taken c (buffer_call c p).0 ++ accepted cs (buffer_call c p).1

  module _ (contents : S → String → Option Bytes) (laws : BatchLaws kv contents)
      (single : (g : Group) → arrange (g ∷ []) ≡ g ∷ []) (ttl : ℤ) where
    -- The store shows `a` what `b` shows.
    abbrev Alike : S → S → Type 0
    Alike s s' = (j : String) → contents s j ≡ contents s' j

    set_each-Alike :
        (ws : List BufferedWrite) (s s' : S)
        → Alike s s'
        → Alike (set_each kv append ws s) (set_each kv append ws s')
    unfolding set_each
    set_each-Alike [] s s' e = e
    set_each-Alike (w ∷ ws) s s' e =
        set_each-Alike ws (kv.set w.key w.value w.ttl s).1 (kv.set w.key w.value w.ttl s').1 λ j.
          ground (
            arith,
            laws.single.set_contents w.key j w.value w.ttl s,
            laws.single.set_contents w.key j w.value w.ttl s',
            e j,
          )

    set_each-append :
        (ws more : List BufferedWrite) (s : S)
        → set_each kv append (ws ++ more) s ≡ set_each kv append more (set_each kv append ws s)
    unfolding set_each
    set_each-append [] more s = refl
    set_each-append (w ∷ ws) more s = set_each-append ws more (kv.set w.key w.value w.ttl s).1

    -- A flush of plain writes.
    flush-Alike :
        (b : WriteBuffer) (s : S) (ws : List BufferedWrite)
        → b.buffer ≡ ws
        → All (IsPlain ttl) ws
        → let (r, after) = flush kv append arrange (b, s) in
          (r ≡ done)
          × (after.0.buffer ≡ [])
          × (after.0.closed ≡ b.closed)
          × Alike after.1 (set_each kv append ws s)
    unfolding flush set_each
    flush-Alike b s [] holds ps = rw holds (refl, refl, refl, λ j. refl)
    flush-Alike b s (w ∷ ws) holds (p, ps) =
        let same = plain-OfTtl ttl w ws p ps in
        let quiet = plain_operations ttl (w ∷ ws) (p, ps) in
        let (answers, empties, _) =
          flush_is_sequential kv append contents laws arrange b w ws s "" single holds same quiet in
        (
          answers,
          empties,
          rw holds refl,
          λ j.
              let (_, _, shows) =
                flush_is_sequential kv append contents laws arrange b w ws s j single holds same
                  quiet in
              shows,
        )

    -- Of what a history has taken, the store and the buffer together hold all; every write that is still in
    -- the buffer is plain; and a closed buffer is empty.
    record IsKept (taken_so_far : List BufferedWrite) (s0 : S) (p : WriteBuffer × S) : Type 0 where
      shown : Alike (set_each kv append p.0.buffer p.1) (set_each kv append taken_so_far s0)
      plain : All (IsPlain ttl) p.0.buffer
      done_with : p.0.closed ≡ true → p.0.buffer ≡ []

    flush-IsKept :
        (ws : List BufferedWrite) (s0 : S) (b : WriteBuffer) (s : S)
        → Alike (set_each kv append b.buffer s) (set_each kv append ws s0)
        → All (IsPlain ttl) b.buffer
        → IsKept ws s0 (flush kv append arrange (b, s)).1
    unfolding set_each
    flush-IsKept ws s0 b s shown plain =
        let (_, empty, _, alike) = flush-Alike b s b.buffer refl plain in
        let after = (flush kv append arrange (b, s)).1 in
        record {
          shown =
              subst
                (λ (l : List BufferedWrite).
                  Alike (set_each kv append l after.1) (set_each kv append ws s0))
                (sym empty) λ j. alike j ∙ shown j;
          plain = subst (All (IsPlain ttl)) (sym empty) tt;
          done_with = λ e. empty;
        }

    close-IsKept :
        (ws : List BufferedWrite) (s0 : S) (b : WriteBuffer) (s : S)
        → IsKept ws s0 (b, s)
        → IsKept ws s0 (close kv append arrange (b, s)).1
    unfolding close
    close-IsKept ws s0 b s k =
        let once = flush-IsKept ws s0 (record b { closed = true }) s k.shown k.plain in
        let middle = (flush kv append arrange (record b { closed = true }, s)).1 in
        let twice = flush-IsKept ws s0 middle.0 middle.1 once.shown once.plain in
        elim b.closed
          as (λ c. IsKept ws s0 (if c then (done, (b, s)) else flush kv append arrange middle).1) [
            | true ↦ k
            | false ↦ twice
          ]

    -- The two outcomes of a write.
    write_cases :
        (w : BufferedWrite) (b : WriteBuffer)
        → let (r, b') = write w b in
          ((is_ok r ≡ true) × (b'.buffer ≡ b.buffer ++ w ∷ []) × (b'.closed ≡ false))
          ⊎ ((is_ok r ≡ false) × (b' ≡ b))
    unfolding write
    write_cases w b = ground arith

    write-IsKept :
        (ws : List BufferedWrite) (w : BufferedWrite) (s0 : S) (b : WriteBuffer) (s : S)
        → IsPlain ttl w
        → IsKept ws s0 (b, s)
        → let (r, b') = write w b in IsKept (ws ++ (if is_ok r then w ∷ [] else [])) s0 (b', s)
    unfolding set_each
    write-IsKept ws w s0 b s q k = elim (write_cases w b) [
      | inl (accepts, added, is_open) ↦ rw accepts record {
        shown =
            subst
              (λ (l : List BufferedWrite).
                Alike (set_each kv append l s) (set_each kv append (ws ++ w ∷ []) s0))
              (sym added)
              λ j.
                ap (λ s. contents s j) (set_each-append b.buffer (w ∷ []) s)
                ∙ set_each-Alike (w ∷ []) (set_each kv append b.buffer s) (set_each kv append ws s0)
                    k.shown j
                ∙ ap (λ s. contents s j) (sym (set_each-append ws (w ∷ []) s0));
        plain =
            subst (All (IsPlain ttl)) (sym added)
              (IsPlain-append ttl b.buffer (w ∷ []) k.plain (q, tt));
        done_with = λ e. absurd (false≢true (sym is_open ∙ e));
      }
      | inr (refuses, same) ↦
          rw (refuses, append-nil) (subst (λ b'. IsKept ws s0 (b', s)) (sym same) k)
    ]

    buffer_call-IsKept :
        (ws : List BufferedWrite) (c : BufferCall) (s0 : S) (p : WriteBuffer × S)
        → WritesPlain ttl c
        → IsKept ws s0 p
        → IsKept (ws ++ taken c (buffer_call c p).0) s0 (buffer_call c p).1
    unfolding buffer_call taken
    buffer_call-IsKept ws (writes w) s0 (b, s) q k = write-IsKept ws w s0 b s q k
    buffer_call-IsKept ws flushes s0 (b, s) q k =
        rw append-nil (flush-IsKept ws s0 b s k.shown k.plain)
    buffer_call-IsKept ws closes s0 (b, s) q k = rw append-nil (close-IsKept ws s0 b s k)

    buffer_calls-IsKept :
        (cs : List BufferCall) (ws : List BufferedWrite) (s0 : S) (p : WriteBuffer × S)
        → All (WritesPlain ttl) cs
        → IsKept ws s0 p
        → IsKept (ws ++ accepted cs p) s0 (buffer_calls cs p)
    unfolding buffer_calls accepted
    buffer_calls-IsKept [] ws s0 p qs k = rw append-nil k
    buffer_calls-IsKept (c ∷ cs) ws s0 p (q, qs) k =
        let r = buffer_call c p in
        subst (λ (l : List BufferedWrite). IsKept l s0 (buffer_calls cs r.1))
          (append_assoc ws (taken c r.0) (accepted cs r.1))
          (buffer_calls-IsKept cs (ws ++ taken c r.0) s0 r.1 qs (buffer_call-IsKept ws c s0 p q k))

    flush-closed :
        (b : WriteBuffer) (s : S) → (flush kv append arrange (b, s)).1.0.closed ≡ b.closed
    unfolding flush
    flush-closed b s = ground arith

    close-closed : (b : WriteBuffer) (s : S) → (close kv append arrange (b, s)).1.0.closed ≡ true
    unfolding close
    close-closed b s =
        let middle = (flush kv append arrange (record b { closed = true }, s)).1 in
        ground (arith, flush-closed (record b { closed = true }) s, flush-closed middle.0 middle.1)

    -- Any sequence of `Write`, `Flush` and `Close` calls, each of which ends before the next begins, on
    -- an empty buffer, whose writes have one time-to-live and carry no operations of the log, and then
    -- `Close`, where a flush of one group meets it once: the buffer is empty, and the store shows under
    -- every key what the writes that returned no error, by `Set` and one after another, would have
    -- left: none is lost, repeated or reordered.
    pub closed_loses_nothing :
        (cs : List BufferCall) (b : WriteBuffer) (s : S) (j : String)
        → b.buffer ≡ []
        → All (WritesPlain ttl) cs
        → let p = buffer_calls cs (b, s) in
          let after = (close kv append arrange p).1 in
          (after.0.buffer ≡ [])
          × (contents after.1 j ≡ contents (set_each kv append (accepted cs (b, s)) s) j)
    unfolding set_each
    closed_loses_nothing cs b s j empty plain =
        let start : IsKept [] s (b, s) = record {
          shown =
              subst (λ (l : List BufferedWrite). Alike (set_each kv append l s) s) (sym empty)
                λ j. refl;
          plain = subst (All (IsPlain ttl)) (sym empty) tt;
          done_with = λ e. empty;
        } in
        let p = buffer_calls cs (b, s) in
        let k =
          close-IsKept (accepted cs (b, s)) s p.0 p.1
            (buffer_calls-IsKept cs [] s (b, s) plain start) in
        let gone = k.done_with (close-closed p.0 p.1) in
        (
          gone,
          ap
                (λ (l : List BufferedWrite).
                  contents (set_each kv append l (close kv append arrange p).1.1) j)
                (sym gone)
              ∙ k.shown j,
        )
