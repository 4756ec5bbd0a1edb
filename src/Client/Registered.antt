-- ===== src/Client/Registered.antt =====
-- internal/client/client.go: a table of the registry once the client has enabled it.
use shock_absorber.Prelude.{
  ℕ, String, ◌≡◌, inl, inr, refl, ap, subst, sym, ◌∙◌, true, [], ◌∷◌, Option, some, none, lookup,
  insert, lookup-insert_self, ok, done, and_then-eq_ok, wrap-eq_ok, ok_injective, arith, eq_iff,
  Bool-cases, Option-cases,
}
use shock_absorber.Core.{Schema}
use shock_absorber.Registry.Tables.{TableMetadata, TableRegistry, mark_enabled, preserve}
use shock_absorber.Registry.Tables as Tables
use shock_absorber.Registry.Tables.Queries.{is_enabled}
use shock_absorber.Registry.Tables.Toggle.{enable_kv_atomic}
use shock_absorber.Client.Ops.{ClientImpl, enable_registered}

-- The table is registered with the instance, and marked enabled.
pub record IsServed {E : Type 0} (tr : TableRegistry E) (name : String) (table : ℕ) : Type 0 where
  pub instance_is : Tables.get tr name ≡ ok table
  pub enabled_is : is_enabled tr name ≡ ok true

preserve-table : (old : Option TableMetadata) (m : TableMetadata) → (preserve old m).table ≡ m.table
preserve-table none m = refl
preserve-table (some o) m = refl

module _ {E : Type 0} where
  pub IsServed-lookup :
      (name : String) (m : TableMetadata) (tr : TableRegistry E)
      → lookup name tr.tables ≡ some m
      → m.enabled ≡ true
      → IsServed tr name m.table
  unfolding Tables.get is_enabled
  IsServed-lookup name m tr e on = record {
    instance_is = rw (Tables.get, e) refl;
    enabled_is = rw (is_enabled, e, on) refl;
  }

  pub get-lookup :
      (name : String) (table : ℕ) (tr : TableRegistry E)
      → Tables.get tr name ≡ ok table
      → (m : TableMetadata) × (lookup name tr.tables ≡ some m) × (m.table ≡ table)
  unfolding Tables.get
  get-lookup name table tr there = elim (Option-cases (lookup name tr.tables)) [
    | inl e ↦ absurd (ground arith)
    | inr (m, e) ↦ (m, e, ground arith)
  ]

  enable_kv-enabled :
      (name : String) (now : ℕ) (m : TableMetadata) (tr : TableRegistry E)
      → lookup name tr.tables ≡ some m
      → m.enabled ≡ true
      → Tables.enable_kv name now tr ≡ (done, tr)
  unfolding Tables.enable_kv
  enable_kv-enabled name now m tr e on = rw (Tables.enable_kv, e, on) refl

  lookup-marked :
      (name : String) (now : ℕ) (m : TableMetadata) (tr tr' : TableRegistry E)
      → tr'.tables ≡ insert name (mark_enabled m now) tr.tables
      → lookup name tr'.tables ≡ some (mark_enabled m now)
  lookup-marked name now m tr tr' e =
      ap (lookup name) e ∙ lookup-insert_self name (mark_enabled m now) tr.tables

  -- The registry's `EnableKV`, where it succeeds on a table that is registered.
  registry_enabled :
      (name : String) (now table : ℕ) (tr : TableRegistry E)
      → Tables.get tr name ≡ ok table
      → (Tables.enable_kv name now tr).0 ≡ done
      → IsServed (Tables.enable_kv name now tr).1 name table
  registry_enabled name now table tr there e =
      let (m, found, is) = get-lookup name table tr there in
      let tr' = (Tables.enable_kv name now tr).1 in
      subst (λ t. IsServed tr' name t) is
        (elim (Bool-cases m.enabled) [
          | inl on ↦
              subst (λ tr. IsServed tr name m.table)
                (sym (ap (λ p. p.1) (enable_kv-enabled name now m tr found on)))
                (IsServed-lookup name m tr found on)
          | inr off ↦ elim (enable_kv_atomic name now m tr found off) [
            | inl (_, tables, _) ↦
                IsServed-lookup name (mark_enabled m now) tr'
                  (lookup-marked name now m tr tr' tables) refl
            | inr (failed, _, _) ↦ absurd (failed e)
          ]
        ])

  pub enable_registered-IsServed :
      (name : String) (now table t : ℕ) (c : ClientImpl E)
      → Tables.get c.registry name ≡ ok table
      → (enable_registered name now table c).0 ≡ ok t
      → (t ≡ table) × IsServed (enable_registered name now table c).1.registry name table
  unfolding enable_registered
  enable_registered-IsServed name now table t c there h =
      let (_, e, same) = and_then-eq_ok _ _ t h in
      (
        sym (ok_injective table t same),
        registry_enabled name now table c.registry there
            (wrap-eq_ok "failed to enable KV for table %q" (name ∷ []) _ tt e),
      )

  pub register-get :
      (name : String) (fresh now : ℕ) (schema : Schema) (tr : TableRegistry E)
      → (Tables.register name (some fresh) (some schema) now tr).0 ≡ done
      → Tables.get (Tables.register name (some fresh) (some schema) now tr).1 name ≡ ok fresh
  unfolding Tables.register Tables.register_given Tables.register_checked Tables.fresh_metadata
      Tables.get
  register-get name fresh now schema tr h =
      let old = lookup name tr.tables in
      let m = Tables.fresh_metadata tr name fresh schema now in
      ground (
        arith,
        eq_iff name "",
        eq_iff schema.table_name name,
        lookup-insert_self name (preserve old m) tr.tables,
        preserve-table old m,
      )
