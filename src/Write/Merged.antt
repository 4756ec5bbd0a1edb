-- ===== src/Write/Merged.antt =====
-- Validated updates keep records valid.
use shock_absorber.Prelude.{
  String, ◌≡◌, refl, Bool, true, false, not, ◌&&◌, [], ◌∷◌, some, is_some, lookup, insert,
  lookup-insert, done, ◌==◌, All, arith, eq_iff, ◌↔◌, Result-cases, Bool-cases, inl, inr,
}
use shock_absorber.Core.{Value, Record, Schema}
use shock_absorber.Table.Ops.{merge}
use shock_absorber.Write.Validator.{
  validate_field, validate_columns, validate_create, validate_update, validate_updates,
}

abbrev IsFit : Schema → Record → Type 0
IsFit schema r = All (λ e. validate_field schema e.0 e.1 ≡ done) r

validate_columns_iff :
    (schema : Schema) (r : Record) → (validate_columns schema r ≡ done) ↔ IsFit schema r
unfolding validate_columns
validate_columns_iff schema [] = (λ h. tt, λ h. refl)
validate_columns_iff schema ((field, value) ∷ rest) = (
  λ h. elim (Result-cases (validate_field schema field value)) [
    | inl (_, e) ↦ (ground arith, (validate_columns_iff schema rest).0 (ground arith))
    | inr (x, e) ↦ ground arith
  ],
  λ h. ground (arith, h.0, (validate_columns_iff schema rest).1 h.1),
)

insert-IsFit :
    (schema : Schema) (field : String) (value : Value) (r : Record)
    → validate_field schema field value ≡ done
    → IsFit schema r
    → IsFit schema (insert field value r)
unfolding insert
insert-IsFit schema field value [] e h = (e, tt)
insert-IsFit schema field value ((j, w) ∷ r) e (h, hs) = elim (Bool-cases (j == field)) [
  | inl b ↦ rw b (e, hs)
  | inr b ↦ rw b (h, insert-IsFit schema field value r e hs)
]

merge-IsFit :
    (schema : Schema) (updates r : Record)
    → IsFit schema updates
    → IsFit schema r
    → IsFit schema (merge r updates)
unfolding merge
merge-IsFit schema [] r u h = h
merge-IsFit schema ((k, v) ∷ updates) r (u, us) h =
    merge-IsFit schema updates (insert k v r) us (insert-IsFit schema k v r u h)

merge-lookup :
    (k : String) (updates r : Record)
    → is_some (lookup k r) ≡ true
    → is_some (lookup k (merge r updates)) ≡ true
unfolding merge
merge-lookup k [] r h = h
merge-lookup k ((j, v) ∷ updates) r h =
    merge-lookup k updates (insert j v r) (ground (arith, lookup-insert j k v r, eq_iff j k))

-- The test on the primary key of `ValidateCreate`.
abbrev lacks_key : Schema → Record → Bool
lacks_key schema r = not (schema.primary_key == "") && not (is_some (lookup schema.primary_key r))

created_fit :
    (schema : Schema) (r : Record)
    → validate_create schema (some r) ≡ done
    → (lacks_key schema r ≡ false) × (validate_columns schema r ≡ done)
unfolding validate_create
created_fit schema r h = ground arith

create_accepts :
    (schema : Schema) (r : Record)
    → lacks_key schema r ≡ false
    → validate_columns schema r ≡ done
    → validate_create schema (some r) ≡ done
unfolding validate_create
create_accepts schema r h k = rw (h, validate_create) k

updated_fit :
    (schema : Schema) (key : Value) (updates : Record)
    → validate_update schema key (some updates) ≡ done
    → validate_columns schema updates ≡ done
unfolding validate_update validate_updates
updated_fit schema key [] h = ground arith
updated_fit schema key (u ∷ us) h = ground arith

merge-lacks_key :
    (schema : Schema) (updates r : Record)
    → lacks_key schema r ≡ false
    → lacks_key schema (merge r updates) ≡ false
merge-lacks_key schema updates r h = elim (Bool-cases (is_some (lookup schema.primary_key r))) [
  | inl e ↦ ground (arith, merge-lookup schema.primary_key updates r e)
  | inr e ↦ ground arith
]

-- A record that `ValidateCreate` accepts stays one that it accepts when updates that `ValidateUpdate`
-- accepts are merged into it the way `Update` of a table merges them.
pub merge_keeps_valid :
    (schema : Schema) (key : Value) (r updates : Record)
    → validate_create schema (some r) ≡ done
    → validate_update schema key (some updates) ≡ done
    → validate_create schema (some (merge r updates)) ≡ done
merge_keeps_valid schema key r updates created updated =
    let (has_key, fit) = created_fit schema r created in
    create_accepts schema (merge r updates) (merge-lacks_key schema updates r has_key) (
      (validate_columns_iff schema (merge r updates)).1 (
        merge-IsFit schema updates r
          ((validate_columns_iff schema updates).0 (updated_fit schema key updates updated))
          ((validate_columns_iff schema r).0 fit)))
