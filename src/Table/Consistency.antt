-- ===== src/Table/Consistency.antt =====
-- internal/read/consistency.go: `ConsistencyHandler`; Reading has `ReadHandler`, whose methods call its. The
-- handlers, the KV store and the namespace are those of a table; no code of the repository but
-- their constructors builds them.
use shock_absorber.Prelude.{
  ℕ, String, ◌≡◌, refl, ap, sym, ◌∙◌, Bool, true, false, not, [], Option, none, is_some, is_ok,
  wrapf, wrap, Error, Result, ok, err, Exec, pure, wrapped, ◌>>=◌, if◌then◌else◌, arith, eq_refl,
}
use shock_absorber.Core.{Value, Record}
use shock_absorber.Store.{Bytes, KvLaws}
use shock_absorber.Table.State.{TableImpl, World, on_kv, build_key}
use shock_absorber.Table.Reads.{is_in_flight, cache_read, fetch, read_from_db}
use shock_absorber.Table.Ops.{read, read_from_database, or_fallback}
use shock_absorber.Table.Cache.{database_answer}

module _ {S D Q : Type 0} (t : TableImpl S D Q) where
  -- `ReadWithConsistency` once the cache has answered.
  unfoldable pub by_consistency :
      Value → Bool → Result Record × World S D Q → Result Record × World S D Q
  by_consistency key strong (ok r, w) = (ok r, w)
  by_consistency key strong (err e, w) =
      let fallback =
        wrapped "read failed (cache miss and DB fallback failed)" [] (read_from_db t key) w in
      if strong
      then (err (wrapf "record not found in cache (strong consistency required)" [] e), w)
      else fallback

  -- `ReadWithConsistency`, and `ReadHandler.Read`
  unfoldable pub read_with_consistency : ℕ → Value → Bool → Exec (World S D Q) Record
  unfolding by_consistency
  read_with_consistency now key strong w = by_consistency key strong (cache_read t now key w)

  -- `InvalidateCache`, and `ReadHandler.Invalidate`
  unfoldable pub invalidate_cache : Value → Exec (World S D Q) (Unit {0})
  invalidate_cache key = on_kv (t.kv_store.delete (build_key t key))

  -- `RefreshCache`, and `ReadHandler.Refresh`
  unfoldable pub refresh_cache : Value → Exec (World S D Q) Record
  refresh_cache key = wrapped "failed to refresh cache from DB" [] (read_from_db t key)

  -- `IsStale`
  unfoldable pub is_stale : Value → Exec (World S D Q) Bool
  is_stale key =
      wrapped "failed to check cache existence" [] (on_kv (t.kv_store.exists (build_key t key)))
      >>= λ exists. pure (not exists)

  module _ (contents : S → String → Option Bytes) (laws : KvLaws t.kv_store contents) where
    invalidate_cache-contents :
        (key : Value) (w : World S D Q)
        → contents (invalidate_cache key w).1.kv (build_key t key) ≡ none
    unfolding invalidate_cache
    invalidate_cache-contents key w =
        laws.delete_contents (build_key t key) (build_key t key) w.kv
        ∙ rw (eq_refl (build_key t key)) refl

    is_stale-contents :
        (key : Value) (w : World S D Q)
        → (is_stale key w).0 ≡ ok (not (is_some (contents w.kv (build_key t key))))
    unfolding is_stale
    is_stale-contents key w = rw (laws.exists_contents (build_key t key) w.kv) refl

    cache_read-absent :
        (now : ℕ) (key : Value) (w : World S D Q)
        → is_in_flight now (build_key t key) w.pending ≡ false
        → contents w.kv (build_key t key) ≡ none
        → let (r, w') = cache_read t now key w in
          (e : Error) × (r ≡ err e)
          × (w'.db ≡ w.db)
          × (w'.background ≡ w.background)
          × (w'.kv ≡ w.kv)
    unfolding cache_read fetch
    cache_read-absent now key w calm absent =
        let (x, e) = laws.get_absent (build_key t key) w.kv absent in
        (wrapf "cache miss" [] x, ground arith, ground arith, ground arith, ground arith)

    eventual-absent :
        (now : ℕ) (key : Value) (w : World S D Q)
        → is_in_flight now (build_key t key) w.pending ≡ false
        → contents w.kv (build_key t key) ≡ none
        → (read_with_consistency now key false w).0
          ≡ wrap "read failed (cache miss and DB fallback failed)" [] (database_answer t key w.db)
    unfolding read_with_consistency by_consistency cache_read fetch read_from_db
    eventual-absent now key w calm absent =
        let (x, e) = laws.get_absent (build_key t key) w.kv absent in ground arith

    strong-absent :
        (now : ℕ) (key : Value) (w : World S D Q)
        → is_in_flight now (build_key t key) w.pending ≡ false
        → contents w.kv (build_key t key) ≡ none
        → let (r, w') = read_with_consistency now key true w in
          (e : Error) × (r ≡ err e) × (w'.db ≡ w.db) × (w'.background ≡ w.background)
    unfolding read_with_consistency by_consistency cache_read fetch
    strong-absent now key w calm absent =
        let (x, e) = laws.get_absent (build_key t key) w.kv absent in
        (
          wrapf "record not found in cache (strong consistency required)" []
              (wrapf "cache miss" [] x),
          ground arith,
          ground arith,
          ground arith,
        )

    -- After `InvalidateCache` of a key that no read is in flight for, the key is stale; a strongly
    -- consistent read of it fails, and neither asks the database nor starts a goroutine; another
    -- read answers what the database does.
    pub invalidated :
        (now : ℕ) (key : Value) (w : World S D Q)
        → is_in_flight now (build_key t key) w.pending ≡ false
        → let gone = (invalidate_cache key w).1 in
          let (strong, after) = read_with_consistency now key true gone in
          ((is_stale key gone).0 ≡ ok true)
          × ((e : Error) × (strong ≡ err e))
          × (after.db ≡ w.db)
          × (after.background ≡ w.background)
          × ((read_with_consistency now key false gone).0
              ≡ wrap "read failed (cache miss and DB fallback failed)" []
                  (database_answer t key w.db))
    unfolding invalidate_cache
    invalidated now key w calm =
        let gone = (invalidate_cache key w).1 in
        let absent = invalidate_cache-contents key w in
        let (e, failed, same_db, same_background) = strong-absent now key gone calm absent in
        (
          is_stale-contents key gone ∙ rw absent refl,
          (e, failed),
          same_db,
          same_background,
          eventual-absent now key gone calm absent,
        )

  strong-kept :
      (key : Value) (p : Result Record × World S D Q)
      → by_consistency key true p
        ≡ (wrap "record not found in cache (strong consistency required)" [] p.0, p.1)
  unfolding by_consistency
  strong-kept key (ok r, w) = refl
  strong-kept key (err e, w) = refl

  eventual-fallback :
      (key : Value) (p : Result Record × World S D Q)
      → by_consistency key false p ≡ (
        (if is_ok p.0
            then (or_fallback t key p).0
            else wrap "read failed (cache miss and DB fallback failed)" [] (or_fallback t key p).0),
        (or_fallback t key p).1,
      )
  unfolding by_consistency or_fallback
  eventual-fallback key (ok r, w) = refl
  eventual-fallback key (err e, w) = refl

  cache_read-rest :
      (now : ℕ) (key : Value) (w : World S D Q)
      → let w' = (cache_read t now key w).1 in (w'.db ≡ w.db) × (w'.background ≡ w.background)
  unfolding cache_read fetch
  cache_read-rest now key w = ground arith

  read-enabled :
      (now : ℕ) (key : Value) (w : World S D Q)
      → w.enabled ≡ true
      → read t now key w ≡ or_fallback t key (cache_read t now key w)
  unfolding read
  read-enabled now key w on =
      ap (λ b. if b then or_fallback t key (cache_read t now key w) else read_from_database t key w)
        on

  -- On an enabled table a strongly consistent read is the read of the cache: it returns the same
  -- record, or the same error wrapped, leaves the same state, and neither asks the database nor starts
  -- a goroutine. Any other read leaves the state that `Read` leaves, and returns the record or error
  -- that `Read` does, the error wrapped if the cache did not answer.
  pub consistency_levels :
      (now : ℕ) (key : Value) (w : World S D Q)
      → w.enabled ≡ true
      → let (cached, w') = cache_read t now key w in
        let (full, w'') = read t now key w in
        (read_with_consistency now key true w
          ≡ (wrap "record not found in cache (strong consistency required)" [] cached, w'))
        × (w'.db ≡ w.db)
        × (w'.background ≡ w.background)
        × (read_with_consistency now key false w ≡ (
          (if is_ok cached
              then full
              else wrap "read failed (cache miss and DB fallback failed)" [] full),
          w'',
        ))
  unfolding read_with_consistency
  consistency_levels now key w on =
      let p = cache_read t now key w in
      let (db, background) = cache_read-rest now key w in
      (
        strong-kept key p,
        db,
        background,
        eventual-fallback key p
            ∙ ap
                (λ q. (
                  (if is_ok p.0
                      then q.0
                      else wrap "read failed (cache miss and DB fallback failed)" [] q.0),
                  q.1,
                ))
                (sym (read-enabled now key w on)),
      )
