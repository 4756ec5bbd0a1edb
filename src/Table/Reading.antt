-- ===== src/Table/Reading.antt =====
-- internal/read/consistency.go: `ReadHandler`, with `Exists` of internal/read/cache_handler.go, and any
-- sequence of their calls. The handlers are those of a table.
use shock_absorber.Prelude.{
  ℕ, String, ◌≡◌, refl, ◌∙◌, Bool, true, false, List, [], ◌∷◌, All, Option, Option-cases, Result,
  ok, err, inl, inr, Exec, ◌==◌, arith,
}
use shock_absorber.Core.{Value, Record}
use shock_absorber.Store.{Bytes, KvLaws}
use shock_absorber.Table.State.{TableImpl, World, on_kv, build_key}
use shock_absorber.Table.Reads.{cache_read, fetch, read_from_db}
use shock_absorber.Table.Consistency.{
  read_with_consistency, by_consistency, invalidate_cache, refresh_cache,
}

data ReadCall : Type 0 where
  -- `Read` at a time, with strong consistency or without; `ReadFromCache` at a time.
  reads : ℕ → Value → Bool → ReadCall
  reads_from_cache : ℕ → Value → ReadCall
  reads_from_db invalidates refreshes : Value → ReadCall
  -- `Exists` of the cache handler.
  looks_up : Value → ReadCall

module _ {S D Q : Type 0} (t : TableImpl S D Q) where
  -- `Exists`
  exists_in_cache : Value → Exec (World S D Q) Bool
  exists_in_cache key = on_kv (t.kv_store.exists (build_key t key))

  read_call : ReadCall → World S D Q → World S D Q
  unfolding exists_in_cache
  read_call (reads now key strong) w = (read_with_consistency t now key strong w).1
  read_call (reads_from_cache now key) w = (cache_read t now key w).1
  read_call (reads_from_db key) w = (read_from_db t key w).1
  read_call (invalidates key) w = (invalidate_cache t key w).1
  read_call (refreshes key) w = (refresh_cache t key w).1
  read_call (looks_up key) w = (exists_in_cache key w).1

  read_calls : List ReadCall → World S D Q → World S D Q
  read_calls [] w = w
  read_calls (c ∷ cs) w = read_calls cs (read_call c w)

  -- The call invalidates the key.
  abbrev removes : String → ReadCall → Bool
  removes j (invalidates key) = build_key t key == j
  removes j c = false

  module _ (contents : S → String → Option Bytes) (laws : KvLaws t.kv_store contents) where
    -- What no call of a read handler changes.
    abbrev Kept : String → World S D Q → World S D Q → Type 0
    Kept j w w' =
        (contents w'.kv j ≡ contents w.kv j) × (w'.queue ≡ w.queue) × (w'.enabled ≡ w.enabled)

    get-kept : (k : String) (s : S) → (t.kv_store.get k s).1 ≡ s
    get-kept k s = elim (Option-cases (contents s k)) [
      | inl e ↦ let (x, g) = laws.get_absent k s e in rw g refl
      | inr (v, e) ↦ rw (laws.get_present k v s e) refl
    ]

    cache_read-Kept :
        (now : ℕ) (j : String) (key : Value) (w : World S D Q) → Kept j w (cache_read t now key w).1
    unfolding cache_read fetch
    cache_read-Kept now j key w = ground (arith, get-kept (build_key t key) w.kv)

    read_from_db-Kept :
        (j : String) (key : Value) (w : World S D Q) → Kept j w (read_from_db t key w).1
    unfolding read_from_db
    read_from_db-Kept j key w = ground arith

    Kept-trans : (j : String) (w w' w'' : World S D Q) → Kept j w w' → Kept j w' w'' → Kept j w w''
    Kept-trans j w w' w'' (a, b, c) (a', b', c') = (a' ∙ a, b' ∙ b, c' ∙ c)

    by_consistency-Kept :
        (j : String) (key : Value) (strong : Bool) (p : Result Record × World S D Q)
        → Kept j p.1 (by_consistency t key strong p).1
    unfolding by_consistency
    by_consistency-Kept j key strong (ok r, w) = (refl, refl, refl)
    by_consistency-Kept j key true (err e, w) = (refl, refl, refl)
    by_consistency-Kept j key false (err e, w) = ground (arith, read_from_db-Kept j key w)

    read_call-Kept :
        (j : String) (c : ReadCall) (w : World S D Q)
        → removes j c ≡ false
        → Kept j w (read_call c w)
    unfolding read_call read_with_consistency invalidate_cache refresh_cache exists_in_cache
    read_call-Kept j (reads now key strong) w e =
        let p = cache_read t now key w in
        Kept-trans j w p.1 (by_consistency t key strong p).1 (cache_read-Kept now j key w)
          (by_consistency-Kept j key strong p)
    read_call-Kept j (reads_from_cache now key) w e = cache_read-Kept now j key w
    read_call-Kept j (reads_from_db key) w e = read_from_db-Kept j key w
    read_call-Kept j (refreshes key) w e = ground (arith, read_from_db-Kept j key w)
    read_call-Kept j (invalidates key) w e =
        ground (arith, laws.delete_contents (build_key t key) j w.kv)
    read_call-Kept j (looks_up key) w e =
        ground (arith, laws.exists_contents (build_key t key) w.kv)

    -- Any sequence of calls of a read handler leaves the queue and the switch of the table alone, and
    -- what the store has under a key that none of the calls invalidates.
    read_calls_keep :
        (cs : List ReadCall) (j : String) (w : World S D Q)
        → All (λ c. removes j c ≡ false) cs
        → Kept j w (read_calls cs w)
    unfolding read_calls
    read_calls_keep [] j w none_removes = (refl, refl, refl)
    read_calls_keep (c ∷ cs) j w (kept, rest) =
        Kept-trans j w (read_call c w) (read_calls cs (read_call c w)) (read_call-Kept j c w kept)
          (read_calls_keep cs j (read_call c w) rest)
