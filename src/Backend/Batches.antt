-- ===== src/Backend/Batches.antt =====
-- internal/kvstore/dynamodb.go: the requests of `BatchSet`. A store with `n` items is given fuel `n`.
use shock_absorber.Prelude.{
  ℕ, zero, suc, ◌+◌, ◌/◌, ◌<◌, ◌≤◌, ◌≡◌, refl, ap, ◌∙◌, ℤ, List, [], ◌∷◌, ◌++◌, All, length, take,
  drop, length-take, length-drop, take-append-drop, Map, ok, done, arith,
}
use shock_absorber.Store.{Bytes}
use shock_absorber.Backend.Dynamo.{
  Item, DynamoClient, max_batch_size, batches, unless_shut, new_items, send, batch_set,
}
use shock_absorber.Backend.Expiry.{open_store}

abbrev pub concat {ℓ} : {A : Type ℓ} → List (List A) → List A
concat [] = []
concat (xs ∷ rest) = xs ++ concat rest

-- The size of a request that the server accepts.
abbrev pub OneRequest {ℓ} : {A : Type ℓ} → List A → Type 0
OneRequest batch = (0 < length batch) × (length batch ≤ 25)

module _ {ℓ} {A : Type ℓ} where
  concat-batches : (fuel : ℕ) (xs : List A) → length xs ≤ fuel → concat (batches fuel xs) ≡ xs
  unfolding batches
  concat-batches zero [] h = refl
  concat-batches zero (x ∷ xs) h = absurd (omega arith)
  concat-batches (suc fuel) [] h = refl
  concat-batches (suc fuel) (x ∷ xs) h =
      let rest = drop max_batch_size (x ∷ xs) in
      ap (λ ys. take max_batch_size (x ∷ xs) ++ ys)
        (concat-batches fuel rest (omega (arith, length-drop max_batch_size (x ∷ xs))))
      ∙ take-append-drop max_batch_size (x ∷ xs)

  batches-OneRequest : (fuel : ℕ) (xs : List A) → All OneRequest (batches fuel xs)
  unfolding batches
  batches-OneRequest zero xs = tt
  batches-OneRequest (suc fuel) [] = tt
  batches-OneRequest (suc fuel) (x ∷ xs) = (
    (omega arith, omega (arith, length-take max_batch_size (x ∷ xs))),
    batches-OneRequest fuel (drop max_batch_size (x ∷ xs)),
  )

  length-batches :
      (fuel : ℕ) (xs : List A) → length xs ≤ fuel → length (batches fuel xs) ≡ (length xs + 24) / 25
  unfolding batches
  length-batches zero [] h = refl
  length-batches zero (x ∷ xs) h = absurd (omega arith)
  length-batches (suc fuel) [] h = refl
  length-batches (suc fuel) (x ∷ xs) h =
      let rest = drop max_batch_size (x ∷ xs) in
      let step = length-batches fuel rest (omega (arith, length-drop max_batch_size (x ∷ xs))) in
      omega (arith, step, length-drop 24 xs)

module _ {C : Type 0} (dynamo : DynamoClient C) where
  length-new_items :
      (clock : ℕ → ℕ) (n : ℕ) (items : Map Bytes) (ttl : ℤ)
      → length (new_items dynamo clock n items ttl) ≡ length items
  unfolding new_items
  length-new_items clock n [] ttl = refl
  length-new_items clock n ((key, value) ∷ rest) ttl =
      ap suc (length-new_items clock (n + 1) rest ttl)

  -- The server after requests, one after another.
  abbrev pub after_requests : List (List Item) → C → C
  after_requests [] c = c
  after_requests (batch ∷ rest) c = after_requests rest (dynamo.batch_write batch c).1

  send-answered :
      (requests : List (List Item)) (c : C)
      → ((batch : List Item) (c : C)
          → (left : List Item) × ((dynamo.batch_write batch c).0 ≡ ok left))
      → send dynamo requests c ≡ (done, after_requests requests c)
  unfolding send
  send-answered [] c answers = refl
  send-answered (batch ∷ rest) c answers =
      let (left, e) = answers batch c in
      rw e (send-answered rest (dynamo.batch_write batch c).1 answers)

  -- Where the server answers every request, `BatchSet` of `n` items on an open store ends after
  -- ⌈n / 25⌉ requests, which hold one item for each given one, in order, at least one and at most 25
  -- in each; it is a success, whichever items the answers give as unprocessed, and the server is as
  -- after these requests, each made once and in order.
  pub batch_set_requests :
      (clock : ℕ → ℕ) (items : Map Bytes) (ttl : ℤ) (c : C)
      → ((batch : List Item) (d : C)
          → (left : List Item) × ((dynamo.batch_write batch d).0 ≡ ok left))
      → let all = new_items dynamo clock 0 items ttl in
        let requests = batches (length all) all in
        (concat requests ≡ all)
        × (length all ≡ length items)
        × All OneRequest requests
        × (length requests ≡ (length items + 24) / 25)
        × (batch_set dynamo clock items ttl (open_store c)
            ≡ (done, open_store (after_requests requests c)))
  unfolding batch_set unless_shut
  batch_set_requests clock items ttl c answers =
      let all = new_items dynamo clock 0 items ttl in
      let requests = batches (length all) all in
      let sizes = length-new_items clock 0 items ttl in
      (
        concat-batches (length all) all (omega arith),
        sizes,
        batches-OneRequest (length all) all,
        length-batches (length all) all (omega arith) ∙ ap (λ n. (n + 24) / 25) sizes,
        rw (send-answered requests c answers) refl,
      )
