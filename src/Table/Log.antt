-- ===== src/Table/Log.antt =====
-- The log of internal/write/wal.go over a KV store that answers (`KvLaws`).
use shock_absorber.Prelude.{
  String, ◌≡◌, ◌≢◌, refl, true, false, Option, none, some, is_some, Result, ok, done, arith,
  if◌then◌else◌, ◌==◌, eq_iff, eq_refl, ap, ◌∙◌,
}
use shock_absorber.Store.{Bytes, KvOps, KvLaws}
use shock_absorber.Table.State.{Formats, WalOperation, Times}
use shock_absorber.Table.Wal.{
  append, append_filled, filled_in, wal_entry_key, timestamp_key, ack_key, acknowledge,
  is_acknowledged, get_operation, one_day, seven_days,
}

module _ {S : Type 0} (kv : KvOps S) (f : Formats) (contents : S → String → Option Bytes)
    (laws : KvLaws kv contents) where
  -- Both writes of an entry.
  abbrev logged : WalOperation → Bytes → S → S
  logged op bytes s =
      (kv.set (timestamp_key f op) (f.text_bytes op.operation_id) one_day
        (kv.set (wal_entry_key op.table op.operation_id) bytes one_day s).1).1

  append_filled-logged :
      (op : WalOperation) (bytes : Bytes) (s : S)
      → f.encode_wal op ≡ ok bytes
      → append_filled kv f op s ≡ (done, logged op bytes s)
  unfolding append_filled
  append_filled-logged op bytes s e = ground (
    arith,
    e,
    laws.set_ok (wal_entry_key op.table op.operation_id) bytes one_day s,
    laws.set_ok (timestamp_key f op) (f.text_bytes op.operation_id) one_day
        (kv.set (wal_entry_key op.table op.operation_id) bytes one_day s).1,
  )

  logged-contents :
      (op : WalOperation) (bytes : Bytes) (s : S) (j : String)
      → timestamp_key f op ≢ j
      → contents (logged op bytes s) j
        ≡ (if wal_entry_key op.table op.operation_id == j then some bytes else contents s j)
  logged-contents op bytes s j h = ground (
    arith,
    laws.set_contents (wal_entry_key op.table op.operation_id) j bytes one_day s,
    laws.set_contents (timestamp_key f op) j (f.text_bytes op.operation_id) one_day
        (kv.set (wal_entry_key op.table op.operation_id) bytes one_day s).1,
    eq_iff (timestamp_key f op) j,
  )

  get_operation-present :
      (table id : String) (bytes : Bytes) (op : WalOperation) (s : S)
      → contents s (wal_entry_key table id) ≡ some bytes
      → f.decode_wal bytes ≡ ok op
      → get_operation kv f table id s ≡ (ok op, s)
  unfolding get_operation
  get_operation-present table id bytes op s e d =
      ground (arith, d, laws.get_present (wal_entry_key table id) bytes s e)

  acknowledge-contents :
      (table id j : String) (s : S)
      → ((acknowledge kv f table id s).0 ≡ done)
        × (contents (acknowledge kv f table id s).1 j
            ≡ (if ack_key table id == j then some (f.text_bytes "1") else contents s j))
  unfolding acknowledge
  acknowledge-contents table id j s = ground (
    arith,
    laws.set_ok (ack_key table id) (f.text_bytes "1") seven_days s,
    laws.set_contents (ack_key table id) j (f.text_bytes "1") seven_days s,
  )

  is_acknowledged-contents :
      (table id : String) (s : S)
      → (is_acknowledged kv f table id s).0 ≡ ok (is_some (contents s (ack_key table id)))
  unfolding is_acknowledged
  is_acknowledged-contents table id s = ground (arith, laws.exists_contents (ack_key table id) s)

  filled_then_get :
      (op : WalOperation) (bytes : Bytes) (s : S)
      → let entry = wal_entry_key op.table op.operation_id in
        let ack = ack_key op.table op.operation_id in
        f.encode_wal op ≡ ok bytes
        → f.decode_wal bytes ≡ ok op
        → timestamp_key f op ≢ entry
        → timestamp_key f op ≢ ack
        → ack ≢ entry
        → contents s ack ≡ none
        → let (r, s') = append_filled kv f op s in
          let acked = (acknowledge kv f op.table op.operation_id s').1 in
          (r ≡ done)
          × ((get_operation kv f op.table op.operation_id s').0 ≡ ok op)
          × ((is_acknowledged kv f op.table op.operation_id s').0 ≡ ok false)
          × ((is_acknowledged kv f op.table op.operation_id acked).0 ≡ ok true)
          × ((get_operation kv f op.table op.operation_id acked).0 ≡ ok op)
  filled_then_get op bytes s e d te ta ae absent =
      let id = op.operation_id in
      let entry = wal_entry_key op.table id in
      let ack = ack_key op.table id in
      let s' = logged op bytes s in
      let acked = (acknowledge kv f op.table id s').1 in
      let stored : contents s' entry ≡ some bytes =
        ground (arith, logged-contents op bytes s entry te, eq_refl entry) in
      let fresh : contents s' ack ≡ none =
        ground (arith, logged-contents op bytes s ack ta, eq_iff entry ack) in
      let marked : contents acked ack ≡ some (f.text_bytes "1") =
        ground (arith, (acknowledge-contents op.table id ack s').1, eq_refl ack) in
      let kept : contents acked entry ≡ some bytes =
        ground (arith, (acknowledge-contents op.table id entry s').1, eq_iff ack entry) in
      rw (append_filled-logged op bytes s e) (
        refl,
        ap (λ (x : Result WalOperation × S). x.0)
            (get_operation-present op.table id bytes op s' stored d),
        is_acknowledged-contents op.table id s' ∙ ap (λ (o : Option Bytes). ok (is_some o)) fresh,
        is_acknowledged-contents op.table id acked
            ∙ ap (λ (o : Option Bytes). ok (is_some o)) marked,
        ap (λ (x : Result WalOperation × S). x.0)
            (get_operation-present op.table id bytes op acked kept d),
      )

  -- `Append` of an operation whose text decodes to it, where the three keys of its entry differ and
  -- it was not acknowledged before: `Append` succeeds, `Get` returns the operation with its identifier
  -- and timestamp filled in, and it is not acknowledged; after `Acknowledge` it is, and `Get` returns
  -- the same.
  pub append_then_get :
      (times : Times) (given : WalOperation) (bytes : Bytes) (s : S)
      → let op = filled_in f times given in
        let entry = wal_entry_key op.table op.operation_id in
        let ack = ack_key op.table op.operation_id in
        f.encode_wal op ≡ ok bytes
        → f.decode_wal bytes ≡ ok op
        → timestamp_key f op ≢ entry
        → timestamp_key f op ≢ ack
        → ack ≢ entry
        → contents s ack ≡ none
        → let (r, s') = append kv f times given s in
          let acked = (acknowledge kv f op.table op.operation_id s').1 in
          (r ≡ done)
          × ((get_operation kv f op.table op.operation_id s').0 ≡ ok op)
          × ((is_acknowledged kv f op.table op.operation_id s').0 ≡ ok false)
          × ((is_acknowledged kv f op.table op.operation_id acked).0 ≡ ok true)
          × ((get_operation kv f op.table op.operation_id acked).0 ≡ ok op)
  unfolding append
  append_then_get times given bytes s e d te ta ae absent =
      filled_then_get (filled_in f times given) bytes s e d te ta ae absent
