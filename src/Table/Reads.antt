-- ===== src/Table/Reads.antt =====
-- The read path: internal/read/cache_handler.go and internal/read/fallback.go.
use shock_absorber.Prelude.{
  ℕ, zero, suc, ◌+◌, ◌-◌, String, Bool, false, not, ◌&&◌, leb, List, [], ◌∷◌, ◌++◌, Option, none,
  some, errorf, Map, lookup, insert, erase, Result, ok, err, Exec, lift, wrapped, wrap, ◌>>=◌,
  sprintf, if◌then◌else◌, length, is_some, and_then,
}
use shock_absorber.Core.{Value, Record, Column}
use shock_absorber.Database.{RowSet, scan}
use shock_absorber.Table.State.{TableImpl, World, PendingRead, on_kv, on_db, build_key}
use shock_absorber.WriteBack.Memory.{ctx_err}

-- 30 * time.Second, in nanoseconds.
abbrev pub thirty_seconds : ℕ
thirty_seconds = 30000000000

-- `IsInFlight`
unfoldable pub is_in_flight : ℕ → String → Map PendingRead → Bool
is_in_flight now key m = elim (lookup key m) [ none ↦ false | some p ↦ leb now p.deadline ]

abbrev pub joined : ℕ → Option PendingRead → PendingRead
joined now none = record {
  result = none;
  error = none;
  waiters = 1;
  deadline = now + thirty_seconds;
}
joined now (some p) = record p { waiters = p.waiters + 1 }

-- `MarkInFlight`
unfoldable pub mark_in_flight : ℕ → String → Map PendingRead → Map PendingRead
mark_in_flight now key m = insert key (joined now (lookup key m)) m

-- `MarkComplete`: the goroutine that removes the entry later is `clean_up`.
unfoldable pub mark_complete : String → Map PendingRead → Map PendingRead
mark_complete key m = elim (lookup key m) [
  | none ↦ m
  | some p ↦ insert key (record p { waiters = p.waiters - 1 }) m
]

-- The goroutine of `MarkComplete`, 100 ms later.
unfoldable pub clean_up : String → Map PendingRead → Map PendingRead
clean_up key m = elim (lookup key m) [
  | none ↦ m
  | some p ↦ elim p.waiters [ zero ↦ erase key m | suc n ↦ m ]
]

abbrev pub is_pending : PendingRead → Bool
is_pending p = not (is_some p.result) && not (is_some p.error)

-- `SetResult` and `SetError`: only the first counts.
unfoldable pub settle : Result Record → PendingRead → PendingRead
settle (ok r) p = if is_pending p then record p { result = some r } else p
settle (err e) p = if is_pending p then record p { error = some e } else p

unfoldable pub set_outcome : String → Result Record → Map PendingRead → Map PendingRead
unfolding settle
set_outcome key r m = elim (lookup key m) [ none ↦ m | some p ↦ insert key (settle r p) m ]

outcome : PendingRead → Result Record
outcome p = elim p.error [
  | some e ↦ err e
  | none ↦ elim p.result [ some r ↦ ok r | none ↦ err ctx_err ]
]

-- `WaitForResult`: a wait that nothing ends is ended by the context.
unfoldable pub wait_for_result : String → Map PendingRead → Result Record
unfolding outcome
wait_for_result key m = elim (lookup key m) [
  | none ↦ err (errorf "no pending read for key: %s" (key ∷ []))
  | some p ↦ outcome p
]

-- `joinColumns`
pub join_columns : List Column → String
join_columns [] = "*"
join_columns (c ∷ []) = c.name
join_columns (c ∷ d ∷ cs) = sprintf (c.name ∷ ", " ∷ join_columns (d ∷ cs) ∷ [])

-- The loop of `scanRow` that names the values; a column listed twice keeps its last value.
unfoldable pub name_values : List Column → List Value → Record → Record
name_values (c ∷ cs) (v ∷ vs) r = name_values cs vs (insert c.name v r)
name_values _ _ r = r

module _ {S D Q : Type 0} (t : TableImpl S D Q) where
  abbrev on_pending : (Map PendingRead → Map PendingRead) → World S D Q → World S D Q
  on_pending f w = record w { pending = f w.pending }

  -- The body of `CacheHandler.Read` after the tests on in-flight reads.
  unfoldable pub fetch : String → Exec (World S D Q) Record
  fetch cache_key = do
    value ← wrapped "cache miss" [] (on_kv (t.kv_store.get cache_key))
    wrapped "failed to deserialize cache value" []
        (lift (t.translator.from_kv cache_key value t.schema))

  -- `CacheHandler.Read`
  unfoldable pub cache_read : ℕ → Value → Exec (World S D Q) Record
  unfolding fetch build_key is_in_flight wait_for_result mark_in_flight set_outcome mark_complete
  cache_read now key w =
      let cache_key = build_key t key in
      let (r, w') = fetch cache_key (on_pending (mark_in_flight now cache_key) w) in
      if is_in_flight now cache_key w.pending
      then (wait_for_result cache_key w.pending, w)
      else (r, on_pending (λ m. mark_complete cache_key (set_outcome cache_key r m)) w')

  -- `buildSelectQuery`
  unfoldable pub build_select_query : String
  unfolding join_columns
  build_select_query = sprintf (
      "SELECT "
      ∷ join_columns t.schema.columns
      ∷ " FROM "
      ∷ t.table_name
      ∷ " WHERE "
      ∷ t.schema.primary_key
      ∷ " = ?"
      ∷ [])

  -- `scanRow`
  unfoldable pub scan_row : List Value → Result Record
  unfolding scan name_values
  scan_row row =
      and_then (wrap "scan failed" [] (scan (length t.schema.columns) row))
        λ values. ok (name_values t.schema.columns values [])

  -- `Next` is called once: a failing iteration that has no row is a record that is not found, and
  -- after a row `Err` has nothing to report, whatever ends the rows later.
  unfoldable pub first_row : Value → RowSet → Result Record
  unfolding scan_row
  first_row key rs = elim rs.rows [
    | [] ↦
        err (
          errorf "record not found: table=%s, key=%v"
            (t.table_name ∷ t.formats.value_text key ∷ []))
    | row ∷ rest ↦ wrap "failed to scan row" [] (scan_row row)
  ]

  -- `ReadFromDB`: a record that was found is handed to a goroutine, which populates the cache.
  unfoldable pub read_from_db : Value → Exec (World S D Q) Record
  unfolding first_row build_select_query
  read_from_db key = do
    rs ← wrapped "database query failed" [] (on_db (t.database.query build_select_query (key ∷ [])))
    r ← lift (first_row key rs)
    λ w. (ok r, record w { background = w.background ++ some r ∷ [] })

  -- `populateCache`
  unfoldable pub populate_cache : Option Record → Exec (World S D Q) (Unit {0})
  populate_cache r = do
    kv ← wrapped "failed to convert record to KV" [] (lift (t.translator.to_kv r t.schema))
    wrapped "failed to populate cache" [] (on_kv (t.kv_store.set kv.0 kv.1 t.ttl))

  unfoldable pub run_first : List (Option Record) → World S D Q → World S D Q
  run_first [] w = w
  run_first (r ∷ rest) w = (populate_cache r (record w { background = rest })).1

  -- The oldest of the goroutines runs.
  unfoldable pub run_background : World S D Q → World S D Q
  unfolding run_first populate_cache
  run_background w = run_first w.background w
