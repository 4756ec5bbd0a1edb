-- ===== src/Client/Serves.antt =====
-- internal/client/client.go: what `EnableKV` promises to the calls after it.
use shock_absorber.Prelude.{
  ℕ, String, ◌≡◌, inl, inr, refl, ap, subst, sym, ◌∙◌, true, false, [], some, lookup, wrapf, Result,
  ok, err, Done, ok_injective, ◌==◌, arith, Bool-cases,
}
use shock_absorber.Core.{Schema}
use shock_absorber.Registry.Tables.{TableMetadata, TableRegistry, mark_enabled, preserve}
use shock_absorber.Registry.Tables as Tables
use shock_absorber.Registry.Tables.Queries.{is_enabled}
use shock_absorber.Client.Ops.{
  ClientImpl, QueueKind, create_queue, enable_registered, enable_known, enable_discovered,
  discovered_schema, enable_found, enable_kv, get_table,
}
use shock_absorber.Client.Registered.{
  IsServed, IsServed-lookup, get-lookup, enable_registered-IsServed, register-get,
}

module _ {E : Type 0} where
  -- Where a run succeeds, it hands back the table, and leaves it served.
  abbrev Serves : String → ℕ → Result ℕ × ClientImpl E → Type 0
  Serves name table p = (t : ℕ) → p.0 ≡ ok t → (t ≡ table) × IsServed p.1.registry name table

  enable_known-on :
      (name : String) (now table : ℕ) (m : TableMetadata) (c : ClientImpl E)
      → m.enabled ≡ true
      → enable_known name now table (ok m) c ≡ (ok table, c)
  unfolding enable_known
  enable_known-on name now table m c on = rw (enable_known, on) refl

  enable_known-off :
      (name : String) (now table : ℕ) (m : TableMetadata) (c : ClientImpl E)
      → m.enabled ≡ false
      → enable_known name now table (ok m) c ≡ enable_registered name now table c
  unfolding enable_known
  enable_known-off name now table m c off = rw (enable_known, off) refl

  get_metadata-lookup :
      (name : String) (m : TableMetadata) (tr : TableRegistry E)
      → lookup name tr.tables ≡ some m
      → Tables.get_metadata tr name ≡ ok m
  unfolding Tables.get_metadata
  get_metadata-lookup name m tr e = rw (Tables.get_metadata, e) refl

  enable_known-served :
      (name : String) (now table : ℕ) (c : ClientImpl E)
      → Tables.get c.registry name ≡ ok table
      → Serves name table (enable_known name now table (Tables.get_metadata c.registry name) c)
  enable_known-served name now table c there =
      let (m, found, is) = get-lookup name table c.registry there in
      subst (λ r. Serves name table (enable_known name now table r c))
        (sym (get_metadata-lookup name m c.registry found))
        (elim (Bool-cases m.enabled) [
          | inl on ↦ subst (Serves name table) (sym (enable_known-on name now table m c on)) λ t h.
              (
                sym (ok_injective table t h),
                subst (λ t. IsServed c.registry name t) is
                    (IsServed-lookup name m c.registry found on),
              )
          | inr off ↦
              subst (Serves name table) (sym (enable_known-off name now table m c off))
                λ t h. enable_registered-IsServed name now table t c there h
        ])

  enable_discovered-served :
      (name : String) (now fresh : ℕ) (schema : Result Schema) (c : ClientImpl E)
      → Serves name fresh (enable_discovered name now fresh schema c)
  unfolding enable_discovered
  enable_discovered-served name now fresh (err e) c = λ t h. cc
  enable_discovered-served name now fresh (ok schema) c =
      let (r, registry) = Tables.register name (some fresh) (some schema) now c.registry in
      let c' : ClientImpl E = record c { registry = registry } in
      let run : Done → Result ℕ × ClientImpl E = λ q. elim q [
        | ok u ↦ enable_registered name now fresh c'
        | err e ↦ (err (wrapf "failed to register table" [] e), c')
      ] in
      let go : (q : Done) → r ≡ q → Serves name fresh (run q) = λ q.
        elim q as (λ q. r ≡ q → Serves name fresh (run q)) [
          | ok u ↦ λ e t h.
              enable_registered-IsServed name now fresh t c'
                (register-get name fresh now schema c.registry e) h
          | err x ↦ λ e t h. cc
        ] in
      go r refl

  enable_registered-closed :
      (name : String) (now table : ℕ) (c : ClientImpl E)
      → (enable_registered name now table c).1.closed ≡ c.closed
  unfolding enable_registered
  enable_registered-closed name now table c = refl

  enable_found-closed :
      (name : String) (now fresh : ℕ) (schema : Result Schema) (queue : Result QueueKind)
      (r : Result ℕ) (c : ClientImpl E)
      → (enable_found name now fresh schema queue r c).1.closed ≡ c.closed
  unfolding enable_found enable_known enable_discovered enable_registered
  enable_found-closed name now fresh schema queue (ok table) c = ground arith
  enable_found-closed name now fresh schema queue (err e) c = ground arith

  enable_found-IsServed :
      (name : String) (now fresh t : ℕ) (schema : Result Schema) (queue : Result QueueKind)
      (q : Result ℕ) (c : ClientImpl E)
      → Tables.get c.registry name ≡ q
      → (enable_found name now fresh schema queue q c).0 ≡ ok t
      → IsServed (enable_found name now fresh schema queue q c).1.registry name t
        × ((table : ℕ) → q ≡ ok table → t ≡ table)
  unfolding enable_found
  enable_found-IsServed name now fresh t schema queue (ok table) c e h =
      let (same, served) = enable_known-served name now table c e t h in
      (
        subst (IsServed (enable_found name now fresh schema queue (ok table) c).1.registry name)
            (sym same) served,
        λ other o. same ∙ ok_injective table other o,
      )
  enable_found-IsServed name now fresh t schema queue (err x) c e h =
      let (same, served) =
        enable_discovered-served name now fresh (discovered_schema name schema queue) c t h in
      (
        subst (IsServed (enable_found name now fresh schema queue (err x) c).1.registry name)
            (sym same) served,
        λ other o. cc,
      )

  -- What the early returns of `EnableKV` leave.
  enable_kv-runs :
      (name : String) (now fresh t : ℕ) (schema : Result Schema) (kafka : Done) (c : ClientImpl E)
      → (enable_kv name now fresh schema kafka c).0 ≡ ok t
      → ((name == "") ≡ false) × (c.closed ≡ false)
  unfolding enable_kv
  enable_kv-runs name now fresh t schema kafka c h = ground arith

  enable_kv-found :
      (name : String) (now fresh : ℕ) (schema : Result Schema) (kafka : Done) (c : ClientImpl E)
      → (name == "") ≡ false
      → c.closed ≡ false
      → enable_kv name now fresh schema kafka c
        ≡ enable_found name now fresh schema
            (create_queue c.config.write_back c.kv_store_is_redis kafka)
            (Tables.get c.registry name)
            c
  unfolding enable_kv
  enable_kv-found name now fresh schema kafka c named is_open = rw (enable_kv, named, is_open) refl

  get_table-open :
      (name : String) (c : ClientImpl E)
      → (name == "") ≡ false
      → c.closed ≡ false
      → get_table c name ≡ Tables.get c.registry name
  unfolding get_table
  get_table-open name c named is_open = rw (get_table, named, is_open) refl

  -- When `EnableKV` returns the instance of a table, then from there `GetTable` returns that instance
  -- and the registry says that the table is enabled. It is the instance that `GetTable` returned
  -- before, if it returned one.
  pub enable_kv_serves :
      (name : String) (now fresh t : ℕ) (schema : Result Schema) (kafka : Done) (c : ClientImpl E)
      → (enable_kv name now fresh schema kafka c).0 ≡ ok t
      → (let c' = (enable_kv name now fresh schema kafka c).1 in
          (get_table c' name ≡ ok t)
          × (is_enabled c'.registry name ≡ ok true)
          × ((table : ℕ) → get_table c name ≡ ok table → t ≡ table))
  enable_kv_serves name now fresh t schema kafka c h =
      let (named, is_open) = enable_kv-runs name now fresh t schema kafka c h in
      let queue = create_queue c.config.write_back c.kv_store_is_redis kafka in
      let q = Tables.get c.registry name in
      let runs = enable_kv-found name now fresh schema kafka c named is_open in
      let (served, keeps) =
        enable_found-IsServed name now fresh t schema queue q c refl
          (sym (ap (λ p. p.0) runs) ∙ h) in
      let c' = (enable_found name now fresh schema queue q c).1 in
      let result : (get_table c' name ≡ ok t) × (is_enabled c'.registry name ≡ ok true) = (
        get_table-open name c' named (enable_found-closed name now fresh schema queue q c ∙ is_open)
            ∙ served.instance_is,
        served.enabled_is,
      ) in
      let there =
        subst (λ c. (get_table c name ≡ ok t) × (is_enabled c.registry name ≡ ok true))
          (sym (ap (λ p. p.1) runs)) result in
      (there.0, there.1, λ table e. keeps table (sym (get_table-open name c named is_open) ∙ e))
