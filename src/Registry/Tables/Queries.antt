-- ===== src/Registry/Tables/Queries.antt =====
-- The operations of internal/registry/table_registry.go that list the tables.
use shock_absorber.Prelude.{
  ℕ, String, ◌≡◌, refl, Bool, true, false, List, [], ◌∷◌, none, some, Map, lookup, Result, ok, err,
  errorf, length, if◌then◌else◌, arith, ◌+◌,
}
use shock_absorber.Registry.Tables.{TableMetadata, TableRegistry}

names : Map TableMetadata → List String
names [] = []
names ((name, m) ∷ rest) = name ∷ names rest

-- The names of the tables whose `Enabled` is the flag.
names_where : Bool → Map TableMetadata → List String
names_where true [] = []
names_where true ((name, m) ∷ rest) =
    let tail = names_where true rest in if m.enabled then name ∷ tail else tail
names_where false [] = []
names_where false ((name, m) ∷ rest) =
    let tail = names_where false rest in if m.enabled then tail else name ∷ tail

module _ {E : Type 0} where
  pub list : TableRegistry E → List String
  unfolding names
  list tr = names tr.tables

  pub list_enabled : TableRegistry E → List String
  unfolding names_where
  list_enabled tr = names_where true tr.tables

  pub list_disabled : TableRegistry E → List String
  unfolding names_where
  list_disabled tr = names_where false tr.tables

  unfoldable pub is_enabled : TableRegistry E → String → Result Bool
  is_enabled tr name = elim (lookup name tr.tables) [
    | none ↦ err (errorf "table %q is not registered" (name ∷ []))
    | some m ↦ ok m.enabled
  ]

  pub count : TableRegistry E → ℕ
  count tr = length tr.tables

  -- The enabled and the disabled tables together are as many as `Count`.
  pub lists_partition :
      (tr : TableRegistry E) → length (list_enabled tr) + length (list_disabled tr) ≡ count tr
  unfolding list_enabled list_disabled count
  lists_partition tr = split tr.tables
    where
      split :
          (ms : Map TableMetadata)
          → length (names_where true ms) + length (names_where false ms) ≡ length ms
      split [] = refl
      split ((name, m) ∷ rest) = ground (arith, split rest)
