-- ===== src/Table/Stale.antt =====
-- Where the cache and the writes disagree: keys that differ, rows that are deleted later, reads whose
-- result is kept for a while.
use shock_absorber.Prelude.{
  ℕ, ◌+◌, ◌-◌, String, ◌≡◌, refl, ap, ◌∙◌, true, false, List, [], ◌∷◌, ◌++◌, Option, none, some,
  Result, ok, err, arith, if◌then◌else◌, ◌==◌, eq_refl, lookup, lookup-insert_self, Map, leb,
}
use shock_absorber.Core.{Value, Record, delete}
use shock_absorber.Store.{Bytes, KvLaws}
use shock_absorber.Table.State.{TableImpl, World, Times, PendingRead, build_key}
use shock_absorber.Table.Reads.{
  cache_read, fetch, is_in_flight, mark_in_flight, mark_complete, set_outcome, settle,
  wait_for_result, run_background, thirty_seconds, joined, run_first, populate_cache,
}
use shock_absorber.Table.Ops.{or_fallback, delete_record, delete_cached, read, wal_operation}
use shock_absorber.Table.Switch.{delete-enabled}
use shock_absorber.Table.Cache.{
  LogApart, log_and_enqueue-contents, delete_cached-rest, read-miss, database_answer,
}

set_outcome-lookup :
    (key : String) (r : Result Record) (p : PendingRead) (m : Map PendingRead)
    → lookup key m ≡ some p
    → lookup key (set_outcome key r m) ≡ some (settle r p)
unfolding set_outcome
set_outcome-lookup key r p m e = rw (e, set_outcome) (lookup-insert_self key (settle r p) m)

mark_complete-lookup :
    (key : String) (p : PendingRead) (m : Map PendingRead)
    → lookup key m ≡ some p
    → lookup key (mark_complete key m) ≡ some (record p { waiters = p.waiters - 1 })
unfolding mark_complete
mark_complete-lookup key p m e =
    rw (e, mark_complete) (lookup-insert_self key (record p { waiters = p.waiters - 1 }) m)

-- What a read leaves behind for the readers of its key: the state of its entry after it was settled
-- with `a`, with `n` readers.
abbrev settled : Record → ℕ → ℕ → PendingRead
settled a n deadline = record { result = some a; error = none; waiters = n; deadline = deadline }

-- A read that nothing has settled yet.
abbrev pub unsettled : ℕ → ℕ → PendingRead
unsettled n deadline = record { result = none; error = none; waiters = n; deadline = deadline }

settle_again : (a : Record) (n d : ℕ) (b : Result Record) → settle b (settled a n d) ≡ settled a n d
unfolding settle
settle_again a n d (ok b) = refl
settle_again a n d (err x) = refl

wait-settled :
    (key : String) (a : Record) (n d : ℕ) (m : Map PendingRead)
    → lookup key m ≡ some (settled a n d)
    → wait_for_result key m ≡ ok a
unfolding wait_for_result
wait-settled key a n d m e = rw (e, wait_for_result) refl

-- The readers that share one in-flight read agree: once an entry without an outcome is settled
-- with a record, a wait returns that record, also after a reader has left and another result or
-- error is set.
pub first_outcome_wins :
    (key : String) (a : Record) (b : Result Record) (n d : ℕ) (m : Map PendingRead)
    → lookup key m ≡ some (unsettled n d)
    → (wait_for_result key (set_outcome key (ok a) m) ≡ ok a)
      × (wait_for_result key (set_outcome key b (mark_complete key (set_outcome key (ok a) m)))
          ≡ ok a)
unfolding settle
first_outcome_wins key a b n d m e =
    let first = set_outcome-lookup key (ok a) (unsettled n d) m e in
    let left = mark_complete-lookup key (settled a n d) (set_outcome key (ok a) m) first in
    let again =
      set_outcome-lookup key b (settled a (n - 1) d) (mark_complete key (set_outcome key (ok a) m))
        left in
    (
      wait-settled key a n d (set_outcome key (ok a) m) first,
      wait-settled key a (n - 1) d
          (set_outcome key b (mark_complete key (set_outcome key (ok a) m)))
          (again ∙ ap some (settle_again a (n - 1) d b)),
    )

module _ {S D Q : Type 0} (t : TableImpl S D Q) (contents : S → String → Option Bytes)
    (laws : KvLaws t.kv_store contents) where
  -- `Delete` empties the key that it builds and no other.
  pub delete_cached-contents :
      (times : Times) (key : Value) (j : String) (w : World S D Q)
      → LogApart t times (wal_operation t times delete key none (build_key t key) none) j
      → contents (delete_cached t times key w).1.kv j
        ≡ (if build_key t key == j then none else contents w.kv j)
  unfolding delete_cached
  delete_cached-contents times key j w apart = ground (
    arith,
    laws.delete_ok (build_key t key) w.kv,
    laws.delete_contents (build_key t key) j w.kv,
    log_and_enqueue-contents t contents laws times
        (wal_operation t times delete key none (build_key t key) none) j
        (record w { kv = (t.kv_store.delete (build_key t key) w.kv).1 }) apart,
  )

  run_background-contents :
      (w : World S D Q) (r : Record) (key : String) (bytes : Bytes)
      → w.background ≡ some r ∷ []
      → t.translator.to_kv (some r) t.schema ≡ ok (key, bytes)
      → contents (run_background t w).kv key ≡ some bytes
  unfolding run_background run_first populate_cache
  run_background-contents w r key bytes e f = ground (
    arith,
    laws.set_ok key bytes t.ttl w.kv,
    laws.set_contents key key bytes t.ttl w.kv,
    eq_refl key,
  )

  -- On an enabled table, after `Delete` of a key whose row the database still has, while no read
  -- of the key is in flight and no goroutine waits, the next `Read` returns the row; and where the
  -- translator stores a record under the key that reads build and the log entry has other keys,
  -- the goroutine that the `Read` leaves puts the row back into the cache.
  pub delete_then_read_restores :
      (times : Times) (now : ℕ) (key : Value) (r : Record) (bytes : Bytes) (w : World S D Q)
      → w.enabled ≡ true
      → w.background ≡ []
      → is_in_flight now (build_key t key) w.pending ≡ false
      → LogApart t times
          (wal_operation t times delete key none (build_key t key) none)
          (build_key t key)
      → database_answer t key w.db ≡ ok r
      → t.translator.to_kv (some r) t.schema ≡ ok (build_key t key, bytes)
      → let (answer, w') = read t now key (delete_record t times key w).1 in
        (answer ≡ ok r) × (contents (run_background t w').kv (build_key t key) ≡ some bytes)
  delete_then_read_restores times now key r bytes w on idle calm apart row e =
      let w' = (delete_cached t times key w).1 in
      let (pending, enabled, background, same) = delete_cached-rest t contents laws times key w in
      let gone : contents w'.kv (build_key t key) ≡ none =
        delete_cached-contents times key (build_key t key) w apart
        ∙ ap (λ b. if b then none else contents w.kv (build_key t key))
            (eq_refl (build_key t key)) in
      let answered : database_answer t key w'.db ≡ ok r = ap (database_answer t key) same ∙ row in
      let (answer, kept, left) =
        read-miss t contents laws now key w' (enabled ∙ on)
          (ap (is_in_flight now (build_key t key)) pending ∙ calm) gone in
      rw (delete-enabled t times key w on) (
        answer ∙ answered,
        run_background-contents (read t now key w').1 r (build_key t key) bytes
            (left
              ∙ ap (λ a. elim a [ ok x ↦ w'.background ++ some x ∷ [] | err x ↦ w'.background ])
                  answered
              ∙ ap (λ (l : List (Option Record)). l ++ some r ∷ []) (background ∙ idle))
            e,
      )

  -- The entry of a key from the start of a read to its end.
  read_entry :
      (now : ℕ) (key : String) (r : Record) (m : Map PendingRead)
      → lookup key m ≡ none
      → lookup key (mark_complete key (set_outcome key (ok r) (mark_in_flight now key m)))
        ≡ some (settled r 0 (now + thirty_seconds))
  unfolding mark_in_flight settle
  read_entry now key r m e =
      let m1 = mark_in_flight now key m in
      let marked : lookup key m1 ≡ some (unsettled 1 (now + thirty_seconds)) =
        lookup-insert_self key (joined now (lookup key m)) m ∙ ap (λ o. some (joined now o)) e in
      mark_complete-lookup key (settled r 1 (now + thirty_seconds)) (set_outcome key (ok r) m1)
        (set_outcome-lookup key (ok r) (unsettled 1 (now + thirty_seconds)) m1 marked)

  fetch-present :
      (key : String) (bytes : Bytes) (r : Record) (w : World S D Q)
      → contents w.kv key ≡ some bytes
      → t.translator.from_kv key bytes t.schema ≡ ok r
      → fetch t key w ≡ (ok r, w)
  unfolding fetch
  fetch-present key bytes r w e f = rw (laws.get_present key bytes w.kv e, f, fetch) refl

  -- A read that finds the text under its key leaves its result behind.
  read-leaves :
      (now : ℕ) (key : Value) (bytes : Bytes) (r : Record) (w : World S D Q)
      → w.enabled ≡ true
      → lookup (build_key t key) w.pending ≡ none
      → contents w.kv (build_key t key) ≡ some bytes
      → t.translator.from_kv (build_key t key) bytes t.schema ≡ ok r
      → let (answer, w') = read t now key w in
        (answer ≡ ok r)
        × (lookup (build_key t key) w'.pending ≡ some (settled r 0 (now + thirty_seconds)))
        × (w'.enabled ≡ w.enabled)
  unfolding read cache_read or_fallback is_in_flight
  read-leaves now key bytes r w on absent e f =
      let k = build_key t key in
      ground (
        arith,
        fetch-present k bytes r (record w { pending = mark_in_flight now k w.pending }) e f,
        read_entry now k r w.pending absent,
      )

  -- A read whose key has an entry that was settled and is not past its deadline.
  read-waits :
      (later : ℕ) (key : Value) (r : Record) (n d : ℕ) (w : World S D Q)
      → w.enabled ≡ true
      → lookup (build_key t key) w.pending ≡ some (settled r n d)
      → leb later d ≡ true
      → (read t later key w).0 ≡ ok r
  unfolding read cache_read or_fallback is_in_flight
  read-waits later key r n d w on e early =
      ground (arith, wait-settled (build_key t key) r n d w.pending e)

  -- On an enabled table, for a key that is cached, has no entry of a read and is none of the log's
  -- keys: `Read` of the key, then `Delete`, then `Read` again, before the entry of the first read
  -- is removed and no later than its deadline, 30 s after it, returns the deleted record, although
  -- nothing stands under the key any more.
  pub deleted_yet_read :
      (times : Times) (now later : ℕ) (key : Value) (bytes : Bytes) (r : Record) (w : World S D Q)
      → w.enabled ≡ true
      → lookup (build_key t key) w.pending ≡ none
      → contents w.kv (build_key t key) ≡ some bytes
      → t.translator.from_kv (build_key t key) bytes t.schema ≡ ok r
      → LogApart t times
          (wal_operation t times delete key none (build_key t key) none)
          (build_key t key)
      → leb later (now + thirty_seconds) ≡ true
      → let (first, w1) = read t now key w in
        let (deleted, w2) = delete_record t times key w1 in
        (first ≡ ok r)
        × (contents w2.kv (build_key t key) ≡ none)
        × ((read t later key w2).0 ≡ ok r)
  deleted_yet_read times now later key bytes r w on absent e f apart early =
      let w1 = (read t now key w).1 in
      let (first, left, kept) = read-leaves now key bytes r w on absent e f in
      let (pending, enabled, _, _) = delete_cached-rest t contents laws times key w1 in
      rw (delete-enabled t times key w1 (kept ∙ on)) (
        first,
        delete_cached-contents times key (build_key t key) w1 apart
            ∙ ap (λ b. if b then none else contents w1.kv (build_key t key))
                (eq_refl (build_key t key)),
        read-waits later key r 0 (now + thirty_seconds) (delete_cached t times key w1).1
            (enabled ∙ kept ∙ on) (ap (lookup (build_key t key)) pending ∙ left) early,
      )
