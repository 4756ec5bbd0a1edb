-- ===== src/Backend/Dynamo.antt =====
-- internal/kvstore/dynamodb.go: `DynamoDBKVStore`. Lines of the log are left out. A clock gives the
-- nanoseconds since 1970; `Unix` is their seconds. One call of `Set` reads it twice, and `BatchSet`
-- twice for each item, so a call is given the readings by their number.
use shock_absorber.Prelude.{
  ℕ, zero, suc, ◌+◌, ◌*◌, ◌/◌, String, ℤ, pos, negsuc, Bool, true, false, not, List, [], ◌∷◌,
  length, take, drop, Option, none, some, Map, lookup, le_ℤ, not_positive, errorf, wrap, and_then,
  Result, ok, err, Exec, pure, wrapped, ◌>>=◌, if◌then◌else◌, ◌==◌,
}
use shock_absorber.Store.{Bytes}

-- types.AttributeValue: texts, numbers (as decimal text) and bytes; `other_attribute` is any other.
pub data Attribute : Type 0 where
  text_attribute : String → Attribute
  number_attribute : String → Attribute
  binary_attribute : Bytes → Attribute
  other_attribute : Attribute

abbrev pub Item : Type 0
Item = Map Attribute

-- The calls of `dynamodb.Client`, for the one table of a store. `get_item` is given the key and the
-- attributes of the projection, where there is one; `batch_write` answers the items that the server
-- left unprocessed. `%d` and its scan, and the format time.RFC3339, are package fmt's and time's.
pub record DynamoClient (C : Type 0) : Type 0 where
  pub describe_table : Exec C (Unit {0})
  pub get_item : String → Option (List String) → Exec C (Option Item)
  pub put_item : Item → Exec C (Unit {0})
  pub delete_item : String → Exec C (Unit {0})
  pub batch_write : List Item → Exec C (List Item)
  pub decimal : ℤ → String
  pub scan_decimal : String → Result ℤ
  pub rfc3339 : ℕ → String

-- `DynamoDBKVStore`
pub record DynamoStore (C : Type 0) : Type 0 where
  pub server : C
  pub closed : Bool

abbrev pub second : ℕ
second = 1000000000

-- now.Add(ttl).Unix() of a positive `ttl`
abbrev pub expires_at : ℕ → ℤ → ℤ
expires_at now (pos n) = pos ((now + n) / second)
expires_at now (negsuc n) = pos 0

-- const maxBatchSize
abbrev pub max_batch_size : ℕ
max_batch_size = 25

-- The slices of the loop of `BatchSet`, on fuel.
unfoldable pub batches {ℓ} : {A : Type ℓ} → ℕ → List A → List (List A)
batches zero items = []
batches (suc fuel) [] = []
batches (suc fuel) (x ∷ xs) =
    take max_batch_size (x ∷ xs) ∷ batches fuel (drop max_batch_size (x ∷ xs))

module _ {C : Type 0} (dynamo : DynamoClient C) where
  -- `NewDynamoDBKVStore`; `load` is what reading the configuration of the SDK comes to.
  unfoldable pub new_dynamo_store : Result (Unit {0}) → String → String → C → Result (DynamoStore C)
  new_dynamo_store load region table_name c =
      let (answer, c') = dynamo.describe_table c in
      if region == ""
      then err (errorf "region is required" [])
      else if table_name == ""
      then err (errorf "table name is required" [])
      else and_then (wrap "failed to load AWS config" [] load) λ _.
        and_then (wrap "failed to connect to DynamoDB table %s" (table_name ∷ []) answer)
          λ _. ok (record { server = c'; closed = false })

  unfoldable pub unless_shut : {A : Type 0} → Exec C A → Exec (DynamoStore C) A
  unless_shut m s =
      let (r, c) = m s.server in
      if s.closed
      then (err (errorf "KV store is closed" []), s)
      else (r, record { server = c; closed = s.closed })

  unfoldable pub past : ℕ → Result ℤ → Bool
  past now (ok ttl) = not (le_ℤ (pos (now / second)) ttl)
  past now (err e) = false

  unfoldable pub past_attribute : ℕ → Option Attribute → Bool
  unfolding past
  past_attribute now (some (number_attribute s)) = past now (dynamo.scan_decimal s)
  past_attribute now _ = false

  -- The check of the attribute "ttl" in `Get` and `Exists`.
  unfoldable pub is_expired : ℕ → Item → Bool
  unfolding past_attribute
  is_expired now item = past_attribute now (lookup "ttl" item)

  unfoldable pub value_of : String → Option Attribute → Result Bytes
  value_of key none = err (errorf "key not found: %s" (key ∷ []))
  value_of key (some (binary_attribute v)) = ok v
  value_of key (some a) = err (errorf "invalid value format for key %s" (key ∷ []))

  unfoldable pub item_value : ℕ → String → Option Item → Result Bytes
  unfolding is_expired value_of
  item_value now key none = err (errorf "key not found: %s" (key ∷ []))
  item_value now key (some item) =
      if is_expired now item
      then err (errorf "key not found: %s" (key ∷ []))
      else value_of key (lookup "value" item)

  -- `Get`
  unfoldable pub get : ℕ → String → Exec (DynamoStore C) Bytes
  unfolding unless_shut item_value
  get now key = unless_shut (
      wrapped "failed to get key %s" (key ∷ []) (dynamo.get_item key none) >>= λ found.
      λ c. (item_value now key found, c))

  -- The item of `Set` and of `BatchSet`.
  unfoldable pub new_item : (ℕ → ℕ) → String → Bytes → ℤ → Item
  new_item clock key value ttl =
      let item =
        ("key", text_attribute key)
        ∷ ("value", binary_attribute value)
        ∷ ("created_at", text_attribute (dynamo.rfc3339 (clock 0)))
        ∷ [] in
      if not_positive ttl
      then item
      else ("ttl", number_attribute (dynamo.decimal (expires_at (clock 1) ttl))) ∷ item

  -- `Set`
  unfoldable pub set : (ℕ → ℕ) → String → Bytes → ℤ → Exec (DynamoStore C) (Unit {0})
  unfolding unless_shut new_item
  set clock key value ttl =
      unless_shut
        (wrapped "failed to set key %s" (key ∷ []) (dynamo.put_item (new_item clock key value ttl)))

  -- `Delete`
  unfoldable pub delete : String → Exec (DynamoStore C) (Unit {0})
  unfolding unless_shut
  delete key = unless_shut (wrapped "failed to delete key %s" (key ∷ []) (dynamo.delete_item key))

  unfoldable pub is_there : ℕ → Option Item → Bool
  unfolding is_expired
  is_there now none = false
  is_there now (some item) = not (is_expired now item)

  -- `Exists`
  unfoldable pub exists : ℕ → String → Exec (DynamoStore C) Bool
  unfolding unless_shut is_there
  exists now key = unless_shut (
      wrapped "failed to check existence of key %s" (key ∷ [])
        (dynamo.get_item key (some ("key" ∷ [])))
      >>= λ found. pure (is_there now found))

  -- The requests of `BatchSet`, up to the first that fails; the unprocessed items are not looked at.
  unfoldable pub send : List (List Item) → Exec C (Unit {0})
  send [] = pure tt
  send (batch ∷ rest) =
      let next = send rest in
      wrapped "failed to batch set keys" [] (dynamo.batch_write batch) >>= λ _. next

  -- The items of `BatchSet`, whose item `n` reads the clock for the times 2n and 2n + 1.
  unfoldable pub new_items : (ℕ → ℕ) → ℕ → Map Bytes → ℤ → List Item
  unfolding new_item
  new_items clock n [] ttl = []
  new_items clock n ((key, value) ∷ rest) ttl =
      new_item (λ i. clock (2 * n + i)) key value ttl ∷ new_items clock (n + 1) rest ttl

  -- `BatchSet`
  unfoldable pub batch_set : (ℕ → ℕ) → Map Bytes → ℤ → Exec (DynamoStore C) (Unit {0})
  unfolding unless_shut send batches new_items
  batch_set clock items ttl =
      let all = new_items clock 0 items ttl in unless_shut (send (batches (length all) all))

-- `Close`
unfoldable pub close : {C : Type 0} → DynamoStore C → DynamoStore C
close s = record { server = s.server; closed = true }
