-- ===== src/Table/Translated.antt =====
-- The tables of internal/table/table_impl.go with the translator of internal/schema/translator.go.
use shock_absorber.Prelude.{
  [], ◌∷◌, ℕ, String, true, false, ◌≡◌, refl, ap, sym, ◌∙◌, subst, ◌≢◌, inl, inr, Bool-cases,
  eq_iff, sprintf_longer, map, lookup, Option, some, none, ok, done, arith, ◌==◌, sprintf,
}
use shock_absorber.Core.{Value, object, Record, create, delete}
use shock_absorber.Store.{Bytes, KvLaws}
use shock_absorber.Schema.Conversions.{Go}
use shock_absorber.Schema.Mapper.{convert_to_db_value}
use shock_absorber.Schema.Validator.{validate_record}
use shock_absorber.Schema.Translator.{
  fields_of, convert_entries, new_translator, translator_ops, from_kv,
}
use shock_absorber.Schema.RoundTrip.{GoLaws, AllKept, json_image, to_kv-valid, stored_then_decoded}
use shock_absorber.Table.State.{TableImpl, World, Times, build_key}
use shock_absorber.Table.Reads.{is_in_flight}
use shock_absorber.Table.Ops.{create_record, delete_record, read, field_of, wal_operation}
use shock_absorber.Table.Namespaces.{foreign_key_missed}
use shock_absorber.Table.Cache.{LogApart, database_answer, create_then_read}

field_of-found :
    (r : Record) (name : String) (v : Value) → lookup name r ≡ some v → field_of (some r) name ≡ v
field_of-found r name v h = ground arith

-- A table as `NewTableImpl` is given it: the translator of `NewTranslator` and the schema of the
-- table's own name.
pub record Wired {S D Q : Type 0} (go : Go) (t : TableImpl S D Q) : Type 0 where
  pub real_translator : t.translator ≡ translator_ops (new_translator go)
  pub same_text : t.formats.value_text ≡ go.value_text
  pub same_name : t.schema.table_name ≡ t.table_name

module _ {S D Q : Type 0} (t : TableImpl S D Q) (go : Go) (wired : Wired go t) where
  -- The key that the translator builds.
  unfoldable pub stored_key : Value → String
  unfolding new_translator
  stored_key key = (new_translator go).format_key t.schema.table_name key

  -- Without a namespace, reads build it too; with one, they never do.
  build_key-plain : (key : Value) → t.namespace ≡ "" → stored_key key ≡ build_key t key
  unfolding stored_key build_key new_translator
  build_key-plain key plain = rw (plain, wired.same_text, wired.same_name) refl

  build_key-named :
      (key : Value)
      → t.namespace == "" ≡ false
      → build_key t key ≡ sprintf (t.namespace ∷ ":" ∷ stored_key key ∷ [])
  unfolding stored_key build_key new_translator
  build_key-named key named = rw (named, wired.same_text, wired.same_name) refl

  build_key-apart : (key : Value) → t.namespace ≢ "" → stored_key key ≢ build_key t key
  build_key-apart key named same = elim (Bool-cases (t.namespace == "")) [
    | inl e ↦ named ((eq_iff t.namespace "").0 e)
    | inr e ↦ sprintf_longer t.namespace (stored_key key) (sym (same ∙ build_key-named key e))
  ]

  stored_as :
      (r stored : Record) (key : Value) (text : Bytes)
      → validate_record go t.schema (some r) ≡ done
      → lookup t.schema.primary_key r ≡ some key
      → convert_entries (convert_to_db_value go) t.schema.columns r ≡ ok stored
      → go.marshal (object (fields_of stored)) ≡ ok text
      → t.translator.to_kv (some r) t.schema ≡ ok (stored_key key, text)
  unfolding stored_key new_translator translator_ops
  stored_as r stored key text valid there conversion encoded =
      ap (λ o. o.to_kv (some r) t.schema) wired.real_translator
      ∙ to_kv-valid (new_translator go) t.schema r stored key text valid there conversion encoded

  module _ (contents : S → String → Option Bytes) (kv_laws : KvLaws t.kv_store contents) where
    -- With a namespace, on an enabled table where nothing stands under the key that reads build, no
    -- read of it is in flight and the log's keys are others: the record of a `Create` is stored
    -- where no `Read` looks, so that the `Read` of its key is answered by the database as it was
    -- before, and a `Delete` of the key leaves the record in the store.
    pub namespaced_record_missed :
        (times : Times) (now : ℕ) (r stored : Record) (key : Value) (text : Bytes) (w : World S D Q)
        → t.namespace ≢ ""
        → w.enabled ≡ true
        → validate_record go t.schema (some r) ≡ done
        → lookup t.schema.primary_key r ≡ some key
        → convert_entries (convert_to_db_value go) t.schema.columns r ≡ ok stored
        → go.marshal (object (fields_of stored)) ≡ ok text
        → is_in_flight now (build_key t key) w.pending ≡ false
        → contents w.kv (build_key t key) ≡ none
        → LogApart t times
            (wal_operation t times create
              (field_of (some r) t.schema.primary_key)
              (some r)
              (stored_key key)
              (some text))
            (stored_key key)
        → LogApart t times
            (wal_operation t times create
              (field_of (some r) t.schema.primary_key)
              (some r)
              (stored_key key)
              (some text))
            (build_key t key)
        → LogApart t times
            (wal_operation t times delete key none (build_key t key) none)
            (stored_key key)
        → let created = (create_record t times (some r) w).1 in
          (contents created.kv (stored_key key) ≡ some text)
          × ((read t now key created).0 ≡ database_answer t key w.db)
          × (contents (delete_record t times key created).1.kv (stored_key key) ≡ some text)
    namespaced_record_missed times now r stored key text w named on valid there conversion encoded =
        foreign_key_missed t contents kv_laws times now key (some r) (stored_key key) text w on
          (build_key-apart key named) (stored_as r stored key text valid there conversion encoded)

  module _ (contents : S → String → Option Bytes) (kv_laws : KvLaws t.kv_store contents)
      (laws : GoLaws go) where
    -- Read-your-writes with the translator, on an enabled table without a namespace: after a
    -- `Create` of a valid record, the `Read` of its key returns the values that the mapper converted,
    -- where each is one that JSON keeps apart for its column, JSON decodes the text to their images,
    -- no read of the key is in flight and the log's keys are others.
    pub created_is_read :
        (times : Times) (now : ℕ) (r stored : Record) (key : Value) (text : Bytes) (w : World S D Q)
        → t.namespace ≡ ""
        → w.enabled ≡ true
        → is_in_flight now (build_key t key) w.pending ≡ false
        → validate_record go t.schema (some r) ≡ done
        → lookup t.schema.primary_key r ≡ some key
        → convert_entries (convert_to_db_value go) t.schema.columns r ≡ ok stored
        → AllKept go t.schema.columns stored
        → go.marshal (object (fields_of stored)) ≡ ok text
        → go.unmarshal_map text ≡ ok (map (λ e. (e.0, json_image go e.1)) stored)
        → LogApart t times
            (wal_operation t times create key (some r) (build_key t key) (some text))
            (build_key t key)
        → (read t now key (create_record t times (some r) w).1).0 ≡ ok stored
    unfolding stored_key new_translator translator_ops
    created_is_read times now r stored key text w plain on calm valid there conversion kept encoded
          decoded apart =
        let (_, from) =
          stored_then_decoded (new_translator go) laws t.schema r stored key text valid there
            conversion kept encoded decoded in
        create_then_read t contents kv_laws times now key (some r) text stored w on calm
          (stored_as r stored key text valid there conversion encoded
            ∙ ap (λ name. ok (name, text)) (build_key-plain key plain))
          (ap (λ o. o.from_kv (build_key t key) text t.schema) wired.real_translator
            ∙ subst (λ name. from_kv (new_translator go) name (some text) t.schema ≡ ok stored)
                (build_key-plain key plain) from)
          (subst
            (λ v.
              LogApart t times
                (wal_operation t times create v (some r) (build_key t key) (some text))
                (build_key t key))
            (sym (field_of-found r t.schema.primary_key key there)) apart)
