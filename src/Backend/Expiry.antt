-- ===== src/Backend/Expiry.antt =====
-- internal/kvstore/dynamodb.go: how long a value that `Set` stores is found by `Get`.
use shock_absorber.Prelude.{
  ℕ, suc, ◌+◌, ◌/◌, ◌≤◌, ◌≡◌, refl, ap, ◌∙◌, String, ℤ, pos, true, false, not, [], ◌∷◌, none, some,
  lookup, leb, not_positive, errorf, ok, err, done, if◌then◌else◌, arith, Bool-cases, inl, inr,
}
use shock_absorber.Store.{Bytes}
use shock_absorber.Backend.Dynamo.{
  text_attribute, number_attribute, binary_attribute, Item, DynamoClient, DynamoStore, second,
  expires_at, unless_shut, past, past_attribute, is_expired, item_value, value_of, new_item, set,
  get,
}

seconds_early : (now until : ℕ) → now ≤ until → leb (now / second) (until / second) ≡ true
seconds_early now until h = ground arith

seconds_late : (now until : ℕ) → until + second ≤ now → leb (now / second) (until / second) ≡ false
seconds_late now until h = ground arith

-- What package fmt says of `%d`, printed and scanned.
abbrev pub Scans : {C : Type 0} → DynamoClient C → ℤ → Type 0
Scans dynamo z = dynamo.scan_decimal (dynamo.decimal z) ≡ ok z

-- A store that is not closed.
abbrev pub open_store : {C : Type 0} → C → DynamoStore C
open_store c = record { server = c; closed = false }

not_positive-suc : (n : ℕ) → not_positive (pos (suc n)) ≡ false
not_positive-suc n = ground arith

module _ {C : Type 0} (dynamo : DynamoClient C) where
  new_item-timed :
      (clock : ℕ → ℕ) (n : ℕ) (key : String) (value : Bytes)
      → new_item dynamo clock key value (pos (suc n))
        ≡ ("ttl", number_attribute (dynamo.decimal (pos ((clock 1 + suc n) / second))))
          ∷ ("key", text_attribute key)
          ∷ ("value", binary_attribute value)
          ∷ ("created_at", text_attribute (dynamo.rfc3339 (clock 0)))
          ∷ []
  unfolding new_item
  new_item-timed clock n key value = rw (not_positive-suc n) refl

  is_expired-new_item :
      (clock : ℕ → ℕ) (now n : ℕ) (key : String) (value : Bytes)
      → Scans dynamo (expires_at (clock 1) (pos (suc n)))
      → is_expired dynamo now (new_item dynamo clock key value (pos (suc n)))
        ≡ not (leb (now / second) ((clock 1 + suc n) / second))
  unfolding is_expired past_attribute past lookup
  is_expired-new_item clock now n key value scans =
      rw (new_item-timed clock n key value, scans) refl

  get-found :
      (now : ℕ) (key : String) (item : Item) (d d' : C)
      → dynamo.get_item key none d ≡ (ok (some item), d')
      → get dynamo now key (open_store d) ≡ (item_value dynamo now key (some item), open_store d')
  unfolding get unless_shut
  get-found now key item d d' h = rw h refl

  set-open_store :
      (clock : ℕ → ℕ) (key : String) (value : Bytes) (ttl : ℤ) (c c' : C)
      → dynamo.put_item (new_item dynamo clock key value ttl) c ≡ (done, c')
      → set dynamo clock key value ttl (open_store c) ≡ (done, open_store c')
  unfolding set unless_shut
  set-open_store clock key value ttl c c' h = rw h refl

  value_of-new_item :
      (clock : ℕ → ℕ) (n : ℕ) (key : String) (value : Bytes)
      → value_of dynamo key (lookup "value" (new_item dynamo clock key value (pos (suc n))))
        ≡ ok value
  unfolding value_of lookup
  value_of-new_item clock n key value = rw (new_item-timed clock n key value) refl

  item_value-new_item :
      (clock : ℕ → ℕ) (now n : ℕ) (key : String) (value : Bytes)
      → Scans dynamo (expires_at (clock 1) (pos (suc n)))
      → item_value dynamo now key (some (new_item dynamo clock key value (pos (suc n)))) ≡ (
          if leb (now / second) ((clock 1 + suc n) / second)
          then ok value
          else err (errorf "key not found: %s" (key ∷ [])))
  unfolding item_value value_of
  item_value-new_item clock now n key value scans =
      elim (Bool-cases (leb (now / second) ((clock 1 + suc n) / second))) [
        | inl e ↦
            rw (is_expired-new_item clock now n key value scans, e)
              (value_of-new_item clock n key value)
        | inr e ↦ rw (is_expired-new_item clock now n key value scans, e) refl
      ]

  -- On an open store `Set` with a positive time-to-live puts one item, and succeeds where the server
  -- takes it. Whenever the server answers a read of the key with that item, `Get` returns the value
  -- until the time-to-live has passed since the clock's second reading of the call, and an error from
  -- one second after it on, where the number that is stored is scanned as it was printed. When the
  -- server shows the item to a read is left open.
  pub value_lives :
      (clock : ℕ → ℕ) (early late n : ℕ) (key : String) (value : Bytes) (c c' d d' : C)
      → let item = new_item dynamo clock key value (pos (suc n)) in
        Scans dynamo (expires_at (clock 1) (pos (suc n)))
        → early ≤ clock 1 + suc n
        → clock 1 + suc n + second ≤ late
        → dynamo.put_item item c ≡ (done, c')
        → dynamo.get_item key none d ≡ (ok (some item), d')
        → (set dynamo clock key value (pos (suc n)) (open_store c) ≡ (done, open_store c'))
          × (get dynamo early key (open_store d) ≡ (ok value, open_store d'))
          × (get dynamo late key (open_store d)
              ≡ (err (errorf "key not found: %s" (key ∷ [])), open_store d'))
  value_lives clock early late n key value c c' d d' scans before after takes shows =
      let item = new_item dynamo clock key value (pos (suc n)) in
      let at : (now : ℕ)
          → get dynamo now key (open_store d) ≡ (
            (if leb (now / second) ((clock 1 + suc n) / second)
                then ok value
                else err (errorf "key not found: %s" (key ∷ []))),
            open_store d',
          ) =
        λ now.
          get-found now key item d d' shows
          ∙ ap (λ r. (r, open_store d')) (item_value-new_item clock now n key value scans) in
      (
        set-open_store clock key value (pos (suc n)) c c' takes,
        at early ∙ rw (seconds_early early (clock 1 + suc n) before) refl,
        at late ∙ rw (seconds_late late (clock 1 + suc n) after) refl,
      )
