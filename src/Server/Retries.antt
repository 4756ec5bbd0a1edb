-- ===== src/Server/Retries.antt =====
-- A second request for the same payment, before the first has been written to the database.
use shock_absorber.Prelude.{
  ℕ, String, ◌≡◌, ◌≢◌, eq_iff, refl, true, [], ◌∷◌, Option, none, some, lookup, Error, ok, err,
  errorf, is_ok, Done, ap, ◌∙◌, sym, sprintf, arith, inl, inr, subst,
}
use shock_absorber.Core.{string, nil, Record, create, WriteOperation}
use shock_absorber.Table.State.{TableImpl, World, Times}
use shock_absorber.Table.Ops.{
  create_record, create_cached, log_and_enqueue, find_by_field, key_column, field_of,
}
use shock_absorber.Table.Switch.{queued_operation, enabled_queues}
use shock_absorber.Server.{
  created, http_error, reference, identified, respond, unless_found, create_referenced,
  create_payment, get_payment_by_reference_handler, answer,
}

-- The entry of the queue for the creation of a payment.
abbrev pub creation : {S D Q : Type 0} → TableImpl S D Q → Times → Record → WriteOperation
creation t times p =
    queued_operation t times create (field_of (some p) t.schema.primary_key) (some p)

module _ {S D Q : Type 0} (t : TableImpl S D Q) (text : Error → String) where
  -- The query of `FindByField` for a payment.
  abbrev pub reference_query : String
  reference_query = sprintf (
      "SELECT " ∷ t.schema.primary_key ∷ " FROM " ∷ t.table_name ∷ " WHERE " ∷ reference
      ∷ " = ? LIMIT 1" ∷ [])

  -- The database has no row for a reference, and stays as it is when it is asked.
  pub record IsAbsent (ref : String) (d : D) : Type 0 where
    pub no_row :
        t.database.query reference_query (string ref ∷ []) d
        ≡ (ok (record { rows = []; error = none }), d)

  find_by_field-absent :
      (now : ℕ) (ref : String) (w : World S D Q)
      → IsAbsent ref w.db
      → find_by_field t now reference (string ref) w
        ≡ (err (errorf "record not found with %s = %v" (reference ∷ [])), w)
  unfolding find_by_field key_column
  find_by_field-absent now ref w a = ground (arith, a.no_row)

  -- A payment whose reference the database does not have goes to `Create`.
  create_payment-absent :
      (now : ℕ) (times : Times) (id ref : String) (p : Record) (w : World S D Q)
      → lookup reference p ≡ some (string ref)
      → IsAbsent ref w.db
      → create_payment t text now times id (ok p) w
        ≡ respond t text (identified id p) (create_record t times (some (identified id p)) w)
  unfolding create_payment create_referenced unless_found
  create_payment-absent now times id ref p w e a = simp (e, find_by_field-absent now ref w a)

  respond-ok :
      (p : Record) (r : Done × World S D Q)
      → is_ok r.0 ≡ true
      → respond t text p r ≡ (created p, r.1)
  unfolding respond
  respond-ok p (ok u, w) e = refl
  respond-ok p (err _, w) e = ground arith

  create_record-enabled :
      (times : Times) (r : Option Record) (w : World S D Q)
      → w.enabled ≡ true
      → (create_record t times r w).1.enabled ≡ true
  unfolding create_record create_cached log_and_enqueue
  create_record-enabled times r w on = ground arith

  -- A queued `Create` has changed the queue and not the database.
  created_queues :
      (times : Times) (p : Record) (w : World S D Q)
      → w.enabled ≡ true
      → is_ok (create_record t times (some p) w).0 ≡ true
      → ((create_record t times (some p) w).1.db ≡ w.db)
        × ((create_record t times (some p) w).1.queue
            ≡ (t.write_queue.enqueue (creation t times p) w.queue).1)
  created_queues times p w on accepted =
      let (queued, _, _, kept, _) = enabled_queues t times 0 nil (some p) w on in
      (kept, elim queued [ inl (q, _) ↦ q | inr (failed, _) ↦ ground arith ])

  -- On an enabled table, two payments with one reference, of which the database has no row: where
  -- `Create` takes the first, with its given or generated identifier, and then the second, both
  -- requests are answered with `created`, the database is as it was before, and the queue has been
  -- handed the creation of the first and then that of the second.
  pub duplicate_creates_twice :
      (now later : ℕ) (times times' : Times) (id id' ref : String) (p p' : Record) (w : World S D Q)
      → w.enabled ≡ true
      → IsAbsent ref w.db
      → lookup reference p ≡ some (string ref)
      → lookup reference p' ≡ some (string ref)
      → let first = create_record t times (some (identified id p)) w in
        let second = create_record t times' (some (identified id' p')) first.1 in
        is_ok first.0 ≡ true
        → is_ok second.0 ≡ true
        → (create_payment t text now times id (ok p) w ≡ (created (identified id p), first.1))
          × (create_payment t text later times' id' (ok p') first.1
              ≡ (created (identified id' p'), second.1))
          × (second.1.db ≡ w.db)
          × (second.1.queue
              ≡ (t.write_queue.enqueue
                  (creation t times' (identified id' p'))
                  (t.write_queue.enqueue (creation t times (identified id p)) w.queue).1).1)
  duplicate_creates_twice now later times times' id id' ref p p' w on absent e e' accepted
        accepted' =
      let first = create_record t times (some (identified id p)) w in
      let second = create_record t times' (some (identified id' p')) first.1 in
      let (kept, queued) = created_queues times (identified id p) w on accepted in
      let on' = create_record-enabled times (some (identified id p)) w on in
      let (kept', queued') = created_queues times' (identified id' p') first.1 on' accepted' in
      (
        create_payment-absent now times id ref p w e absent
            ∙ respond-ok (identified id p) first accepted,
        create_payment-absent later times' id' ref p' first.1 e'
              (subst (IsAbsent ref) (sym kept) absent)
            ∙ respond-ok (identified id' p') second accepted',
        kept' ∙ kept,
        queued'
            ∙ ap (λ q. (t.write_queue.enqueue (creation t times' (identified id' p')) q).1) queued,
      )

  -- A request for the payment of a reference that the database does not have is answered with 404,
  -- whatever the cache and the queue hold.
  queued_payment_missed :
      (now : ℕ) (ref : String) (w : World S D Q)
      → ref ≢ ""
      → IsAbsent ref w.db
      → get_payment_by_reference_handler t text "GET" ref now w ≡ (
        http_error 404 (
            sprintf (
              "Payment not found: "
              ∷ text (errorf "record not found with %s = %v" (reference ∷ []))
              ∷ [])),
        w,
      )
  unfolding get_payment_by_reference_handler answer
  queued_payment_missed now ref w given a =
      ground (arith, find_by_field-absent now ref w a, eq_iff ref "")
