-- ===== src/Database/Grouping.antt =====
-- The indexes of `GetSchema` of internal/database/mysql.go: the rows of an index, brought together.
use shock_absorber.Prelude.{
  String, ◌≡◌, refl, ap, sym, ◌∙◌, List, [], ◌∷◌, ◌++◌, Option, some, none, Map, lookup,
  lookup-insert, map, ok, wrap, wrap-eq_ok, and_then-eq_ok, ok_injective, if◌then◌else◌, ◌==◌,
  arith, eq_iff, append_assoc, append-nil, Option-cases, inl, inr, is_zero,
}
use mathlib.Core.Option
use shock_absorber.Core.{Value, Index}
use shock_absorber.Database.MySql.{Scanner, IndexRow, add_index, scan_index, read_indexes}

-- The columns of an index, in the order of the rows.
abbrev pub columns_named : String → List IndexRow → List String
columns_named name [] = []
columns_named name (r ∷ rs) =
    let rest = columns_named name rs in if r.index_name == name then r.column_name ∷ rest else rest

-- Columns after those that are there.
abbrev pub extended : Option (List String) → List String → Option (List String)
extended o [] = o
extended none (c ∷ cs) = some (c ∷ cs)
extended (some l) (c ∷ cs) = some (l ++ c ∷ cs)

abbrev pub columns_at : String → Map Index → Option (List String)
columns_at name m = Option.map (λ i. i.columns) (lookup name m)

add_indexes : Map Index → List IndexRow → Map Index
add_indexes m [] = m
add_indexes m (r ∷ rs) = add_indexes (add_index m r) rs

read_indexes-ok :
    (scanner : Scanner) (rows : List (List Value)) (m n : Map Index)
    → read_indexes scanner rows m ≡ ok n
    → (rs : List IndexRow) × (map (scan_index scanner) rows ≡ map ok rs) × (n ≡ add_indexes m rs)
unfolding read_indexes add_indexes
read_indexes-ok scanner [] m n h = ([], refl, sym (ok_injective m n h))
read_indexes-ok scanner (row ∷ rows) m n h =
    let (r, e, rest) =
      and_then-eq_ok (wrap "failed to scan index" [] (scan_index scanner row)) _ n h in
    let (rs, es, same) = read_indexes-ok scanner rows (add_index m r) n rest in
    (
      r ∷ rs,
      ap (λ x. x ∷ map (scan_index scanner) rows)
            (wrap-eq_ok "failed to scan index" [] (scan_index scanner row) r e)
          ∙ ap (λ xs. ok r ∷ xs) es,
      same,
    )

columns_at-add_index :
    (name : String) (m : Map Index) (r : IndexRow)
    → columns_at name (add_index m r) ≡ extended (columns_at name m) (columns_named name (r ∷ []))
unfolding add_index
columns_at-add_index name m r = elim (Option-cases (lookup r.index_name m)) [
  | inl e ↦
      let new : Index = record {
        name = r.index_name;
        columns = r.column_name ∷ [];
        unique = is_zero r.non_unique;
        primary = r.index_name == "PRIMARY";
      } in
      ground (arith, e, eq_iff r.index_name name, lookup-insert r.index_name name new m)
  | inr (i, e) ↦
      let longer : Index = record i { columns = i.columns ++ r.column_name ∷ [] } in
      ground (arith, e, eq_iff r.index_name name, lookup-insert r.index_name name longer m)
]

extended-append :
    (o : Option (List String)) (cs ds : List String)
    → extended (extended o cs) ds ≡ extended o (cs ++ ds)
extended-append o [] ds = refl
extended-append none (c ∷ cs) [] = ap (λ l. some (c ∷ l)) (sym (append-nil cs))
extended-append (some l) (c ∷ cs) [] = ap (λ k. some (l ++ c ∷ k)) (sym (append-nil cs))
extended-append none (c ∷ cs) (d ∷ ds) = refl
extended-append (some l) (c ∷ cs) (d ∷ ds) = ap some (append_assoc l (c ∷ cs) (d ∷ ds))

columns_named-cons :
    (name : String) (r : IndexRow) (rs : List IndexRow)
    → columns_named name (r ∷ rs) ≡ columns_named name (r ∷ []) ++ columns_named name rs
columns_named-cons name r rs = ground arith

columns_at-add_indexes :
    (name : String) (m : Map Index) (rs : List IndexRow)
    → columns_at name (add_indexes m rs) ≡ extended (columns_at name m) (columns_named name rs)
unfolding add_indexes
columns_at-add_indexes name m [] = refl
columns_at-add_indexes name m (r ∷ rs) =
    columns_at-add_indexes name (add_index m r) rs
    ∙ ap (λ o. extended o (columns_named name rs)) (columns_at-add_index name m r)
    ∙ extended-append (columns_at name m) (columns_named name (r ∷ [])) (columns_named name rs)
    ∙ ap (extended (columns_at name m)) (sym (columns_named-cons name r rs))

-- The map of `GetSchema` after its second loop: every row has been scanned, and each index has the
-- columns of the rows that name it, in the order of the rows; a name that no row has is not in the
-- map.
pub read_indexes_groups :
    (scanner : Scanner) (rows : List (List Value)) (m : Map Index)
    → read_indexes scanner rows [] ≡ ok m
    → (rs : List IndexRow) × (map (scan_index scanner) rows ≡ map ok rs)
      × ((name : String) → columns_at name m ≡ extended none (columns_named name rs))
unfolding lookup
read_indexes_groups scanner rows m h =
    let (rs, scanned, same) = read_indexes-ok scanner rows [] m h in
    (rs, scanned, λ name. ap (columns_at name) same ∙ columns_at-add_indexes name [] rs)
