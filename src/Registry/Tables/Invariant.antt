-- ===== src/Registry/Tables/Invariant.antt =====
-- What every history of calls keeps: a table stands under its own name, with a schema of that name,
-- and its timestamps agree with its `Enabled` flag.
use mathlib.Core.Path.{subst₂}
use shock_absorber.Prelude.{
  ℕ, String, ◌≡◌, refl, subst, arith, false, List, [], ◌∷◌, Option, none, some, Map, lookup, insert,
  erase, is_some, insert-eq_some, erase-eq_some, eq_iff, ◌==◌, Option-cases, Bool-cases, inl, inr,
  ◌⊎◌,
}
use shock_absorber.Core.{Schema}
use shock_absorber.Registry.Tables.Writes.{
  enable_table-tables, disable_table-tables, unregister_table-tables, clear-tables,
}
use shock_absorber.Registry.Config.{InternalConfig, InternalTableConfig}
use shock_absorber.Registry.Config.Tables.{get_table_config}
use shock_absorber.Registry.Tables.{
  updates_config, refreshes_config, refreshed, update_config, refresh_config, TableMetadata,
  TableRegistry, Call, registers, enables, disables, unregisters, clears, fresh_metadata,
  register_checked, register_given, register, enable_kv, disable_kv, unregister, step, run,
  preserve, mark_enabled, mark_disabled,
}

pub record IsCoherent (name : String) (m : TableMetadata) : Type 0 where
  pub named : m.table_name ≡ name
  pub schema_named : m.schema.table_name ≡ name
  pub enabled_stamp : is_some m.enabled_at ≡ m.enabled
  pub disabled_stamp : (m.enabled ≡ false) ⊎ (m.disabled_at ≡ none)

pub record Inv (t : Map TableMetadata) : Type 0 where
  pub at : (j : String) (m : TableMetadata) → lookup j t ≡ some m → IsCoherent j m

insert-Inv :
    (t : Map TableMetadata) (name : String) (new : TableMetadata)
    → Inv t
    → IsCoherent name new
    → Inv (insert name new t)
insert-Inv t name new v c = record {
  at = λ j m e. elim (insert-eq_some name j new m t e) [
    | inl (same, eq) ↦ subst₂ IsCoherent same eq c
    | inr old ↦ v.at j m old
  ];
}

empty-Inv : Inv []
unfolding lookup
empty-Inv = record { at = λ j m e. cc }

erase-Inv : (t : Map TableMetadata) (name : String) → Inv t → Inv (erase name t)
erase-Inv t name v = record { at = λ j m e. v.at j m (erase-eq_some name j m t e) }

-- A map that is the old one, or the old one with a coherent change, is coherent.
one_of : {t u w : Map TableMetadata} → Inv t → Inv w → (u ≡ t) ⊎ (u ≡ w) → Inv u
one_of v w (inl e) = rw e v
one_of v w (inr e) = rw e w

marked-IsCoherent :
    (name : String) (now : ℕ) (m : TableMetadata)
    → IsCoherent name m
    → IsCoherent name (mark_enabled m now) × IsCoherent name (mark_disabled m now)
marked-IsCoherent name now m c = (
  record {
    named = c.named;
    schema_named = c.schema_named;
    enabled_stamp = refl;
    disabled_stamp = inr refl;
  },
  record {
    named = c.named;
    schema_named = c.schema_named;
    enabled_stamp = refl;
    disabled_stamp = inl refl;
  },
)

configured-IsCoherent :
    (name : String) (config : InternalTableConfig) (now : ℕ) (m : TableMetadata)
    → IsCoherent name m
    → IsCoherent name (record m { config = config; updated_at = now })
configured-IsCoherent name config now m c = record {
  named = c.named;
  schema_named = c.schema_named;
  enabled_stamp = c.enabled_stamp;
  disabled_stamp = c.disabled_stamp;
}

-- Where an entry of the refreshed map comes from.
refreshed-some :
    (config : InternalConfig) (now : ℕ) (j : String) (t : Map TableMetadata) (m : TableMetadata)
    → lookup j (refreshed config now t) ≡ some m
    → (old : TableMetadata) × (lookup j t ≡ some old)
      × (record old { config = get_table_config config old.table_name; updated_at = now } ≡ m)
unfolding refreshed lookup
refreshed-some config now j [] m e = ground arith
refreshed-some config now j ((at, old) ∷ rest) m e = elim (Bool-cases (at == j)) [
  | inl f ↦ (old, rw f refl, ground arith)
  | inr f ↦
      let (x, found, same) = refreshed-some config now j rest m (ground arith) in
      (x, rw f found, same)
]

refreshed-Inv :
    (config : InternalConfig) (now : ℕ) (t : Map TableMetadata)
    → Inv t
    → Inv (refreshed config now t)
refreshed-Inv config now t v = record {
  at = λ j m e.
      let (old, found, same) = refreshed-some config now j t m e in
      subst (IsCoherent j) same (
        configured-IsCoherent j (get_table_config config old.table_name) now old
          (v.at j old found));
}

module _ {E : Type 0} (tr : TableRegistry E) (v : Inv tr.tables) where
  preserve-IsCoherent :
      (name : String) (old : Option TableMetadata) (new : TableMetadata)
      → lookup name tr.tables ≡ old
      → IsCoherent name new
      → IsCoherent name (preserve old new)
  preserve-IsCoherent name none new e c = c
  preserve-IsCoherent name (some m) new e c =
      let w = v.at name m e in
      record {
        named = c.named;
        schema_named = c.schema_named;
        enabled_stamp = w.enabled_stamp;
        disabled_stamp = w.disabled_stamp;
      }

  register_checked-Inv :
      (name : String) (table : ℕ) (schema : Schema) (now : ℕ)
      → Inv (register_checked name table schema now tr).1.tables
  unfolding register_checked
  register_checked-Inv name table schema now = elim (Bool-cases (schema.table_name == name)) [
    | inl f ↦ rw f (
        insert-Inv tr.tables name _ v (
          preserve-IsCoherent name (lookup name tr.tables) (fresh_metadata tr name table schema now)
            refl
            (record {
              named = refl;
              schema_named = (eq_iff _ _).0 f;
              enabled_stamp = refl;
              disabled_stamp = inl refl;
            })))
    | inr f ↦ rw f v
  ]

  register-Inv :
      (name : String) (table : Option ℕ) (schema : Option Schema) (now : ℕ)
      → Inv (register name table schema now tr).1.tables
  unfolding register register_given
  register-Inv name table schema now = elim (Bool-cases (name == "")) [
    | inl e ↦ rw (e, register) v
    | inr e ↦ rw (e, register) (given table schema)
  ]
    where
      given :
          (table : Option ℕ) (schema : Option Schema)
          → Inv (register_given name table schema now tr).1.tables
      given none schema = v
      given (some table) none = v
      given (some table) (some schema) = register_checked-Inv name table schema now

module _ {E : Type 0} where
  enable_kv-Inv :
      (name : String) (now : ℕ) (tr : TableRegistry E)
      → Inv tr.tables
      → Inv (enable_kv name now tr).1.tables
  unfolding enable_kv
  enable_kv-Inv name now tr v = elim (Option-cases (lookup name tr.tables)) [
    | inl e ↦ rw (e, enable_kv) v
    | inr (m, e) ↦ elim (Bool-cases m.enabled) [
      | inl f ↦ rw (e, f, enable_kv) v
      | inr f ↦
          rw (e, f, enable_kv)
            (one_of v
              (insert-Inv tr.tables name (mark_enabled m now) v
                (marked-IsCoherent name now m (v.at name m e)).0)
              (enable_table-tables name now m tr))
    ]
  ]

  disable_kv-Inv :
      (name : String) (now : ℕ) (tr : TableRegistry E)
      → Inv tr.tables
      → Inv (disable_kv name now tr).1.tables
  unfolding disable_kv
  disable_kv-Inv name now tr v = elim (Option-cases (lookup name tr.tables)) [
    | inl e ↦ rw (e, disable_kv) v
    | inr (m, e) ↦ elim (Bool-cases m.enabled) [
      | inl f ↦
          rw (e, f, disable_kv)
            (one_of v
              (insert-Inv tr.tables name (mark_disabled m now) v
                (marked-IsCoherent name now m (v.at name m e)).1)
              (disable_table-tables name now m tr))
      | inr f ↦ rw (e, f, disable_kv) v
    ]
  ]

  unregister-Inv :
      (name : String) (tr : TableRegistry E) → Inv tr.tables → Inv (unregister name tr).1.tables
  unfolding unregister
  unregister-Inv name tr v = elim (Option-cases (lookup name tr.tables)) [
    | inl e ↦ rw (e, unregister) v
    | inr (m, e) ↦
        rw (e, unregister)
          (one_of v (erase-Inv tr.tables name v) (unregister_table-tables name m tr))
  ]

  update_config-Inv :
      (name : String) (now : ℕ) (tr : TableRegistry E)
      → Inv tr.tables
      → Inv (update_config name now tr).1.tables
  unfolding update_config
  update_config-Inv name now tr v = elim (Option-cases (lookup name tr.tables)) [
    | inl e ↦ rw (e, update_config) v
    | inr (m, e) ↦
        rw (e, update_config)
          (insert-Inv tr.tables name _ v
            (configured-IsCoherent name (get_table_config tr.config name) now m (v.at name m e)))
  ]

  step-Inv : (tr : TableRegistry E) (c : Call) → Inv tr.tables → Inv (step tr c).tables
  unfolding step refresh_config
  step-Inv tr (registers name table schema now) v = register-Inv tr v name table schema now
  step-Inv tr (enables name now) v = enable_kv-Inv name now tr v
  step-Inv tr (disables name now) v = disable_kv-Inv name now tr v
  step-Inv tr (unregisters name) v = unregister-Inv name tr v
  step-Inv tr clears v = one_of v empty-Inv (clear-tables tr)
  step-Inv tr (updates_config name now) v = update_config-Inv name now tr v
  step-Inv tr (refreshes_config now) v = refreshed-Inv tr.config now tr.tables v

  -- From a coherent registry every history of calls, failing or not, whatever the hooks do, leads
  -- to a coherent one: each table stands under its own name, with the schema of that name,
  -- `EnabledAt` is set exactly while it is enabled, and `DisabledAt` is not set then.
  pub run-Inv : (tr : TableRegistry E) (cs : List Call) → Inv tr.tables → Inv (run tr cs).tables
  unfolding run
  run-Inv tr [] v = v
  run-Inv tr (c ∷ cs) v = run-Inv (step tr c) cs (step-Inv tr c v)
