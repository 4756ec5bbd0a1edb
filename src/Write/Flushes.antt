-- ===== src/Write/Flushes.antt =====
-- internal/write/buffer.go: what a flush leaves in a KV store that answers.
use shock_absorber.Prelude.{
  ◌+◌, ◌≡◌, refl, ap, sym, subst, ◌∙◌, String, ℤ, true, false, List, [], ◌∷◌, ◌++◌, append-nil,
  append_assoc, All, Option, none, some, Map, lookup, insert, lookup-insert, lookup-insert_self,
  done, Exec, arith,
}
use shock_absorber.Store.{Bytes, KvOps, KvLaws}
use shock_absorber.Table.State.{WalOperation}
use shock_absorber.Write.Buffer.{
  BufferedWrite, WriteBuffer, same_ttl, Group, add_to_group, grouped, items_of, operations_of,
  set_each, append_each, after_batch, flush_group, flush_groups, flush_writes, flush,
}

-- What a store shows under a key after a batch of writes.
abbrev pub overlay : Option Bytes → Option Bytes → Option Bytes
overlay none old = old
overlay (some v) old = some v

-- The server answers, and a batch stores each of its items.
pub record BatchLaws {S : Type 0} (kv : KvOps S) (contents : S → String → Option Bytes)
    : Type 0 where
  pub single : KvLaws kv contents
  pub batch_answers : (items : Map Bytes) (ttl : ℤ) (s : S) → (kv.batch_set items ttl s).0 ≡ done
  pub batch_contents :
      (items : Map Bytes) (ttl : ℤ) (s : S) (j : String)
      → contents (kv.batch_set items ttl s).1 j ≡ overlay (lookup j items) (contents s j)

-- An order of the groups that Go may take.
abbrev pub swapped : List Group → List Group
swapped (g ∷ h ∷ gs) = h ∷ g ∷ gs
swapped gs = gs

-- A write that joins a group of the time-to-live.
abbrev pub OfTtl : ℤ → BufferedWrite → Type 0
OfTtl ttl w = same_ttl ttl w.ttl ≡ true

grouped-one :
    (ttl : ℤ) (ws more : List BufferedWrite)
    → All (OfTtl ttl) more
    → grouped ((ttl, ws) ∷ []) more ≡ (ttl, ws ++ more) ∷ []
unfolding grouped add_to_group
grouped-one ttl ws [] e = ap (λ xs. (ttl, xs) ∷ []) (sym (append-nil ws))
grouped-one ttl ws (w ∷ more) (e, es) = rw e (
    grouped-one ttl (ws ++ w ∷ []) more es
    ∙ ap (λ xs. (ttl, xs) ∷ []) (append_assoc ws (w ∷ []) more))

lookup-nothing : (j : String) (old : Option Bytes) → overlay (lookup j []) old ≡ old
unfolding lookup
lookup-nothing j old = refl

module _ {S : Type 0} (kv : KvOps S) (append : WalOperation → Exec S (Unit {0}))
    (contents : S → String → Option Bytes) (laws : BatchLaws kv contents) where
  -- A batch of the last values is the writes one after another.
  items_of-set_each :
      (ws : List BufferedWrite) (m : Map Bytes) (s s' : S) (j : String)
      → overlay (lookup j m) (contents s j) ≡ contents s' j
      → overlay (lookup j (items_of m ws)) (contents s j) ≡ contents (set_each kv append ws s') j
  unfolding items_of set_each
  items_of-set_each [] m s s' j e = e
  items_of-set_each (w ∷ ws) m s s' j e =
      items_of-set_each ws (insert w.key w.value m) s (kv.set w.key w.value w.ttl s').1 j (
        ground (
          arith,
          lookup-insert w.key j w.value m,
          laws.single.set_contents w.key j w.value w.ttl s',
          e,
        ))

  -- A group without operations of the log.
  flush_group-contents :
      (ttl : ℤ) (ws : List BufferedWrite) (s : S) (j : String)
      → operations_of ws ≡ []
      → contents (flush_group kv append (ttl, ws) s) j
        ≡ overlay (lookup j (items_of [] ws)) (contents s j)
  unfolding flush_group after_batch append_each
  flush_group-contents ttl ws s j quiet =
      rw (quiet, laws.batch_answers (items_of [] ws) ttl s)
        (laws.batch_contents (items_of [] ws) ttl s j)

  flush-full :
      (arrange : List Group → List Group) (b : WriteBuffer) (w : BufferedWrite)
      (ws : List BufferedWrite) (s : S)
      → b.buffer ≡ w ∷ ws
      → flush kv append arrange (b, s) ≡ (
        done,
        (
          record b { buffer = []; total_flushes = b.total_flushes + 1 },
          flush_writes kv append arrange (w ∷ ws) s,
        ),
      )
  unfolding flush
  flush-full arrange b w ws s full = rw full refl

  pub flush_writes-one :
      (arrange : List Group → List Group) (w : BufferedWrite) (ws : List BufferedWrite) (s : S)
      → ((g : Group) → arrange (g ∷ []) ≡ g ∷ [])
      → All (OfTtl w.ttl) ws
      → flush_writes kv append arrange (w ∷ ws) s ≡ flush_group kv append (w.ttl, w ∷ ws) s
  unfolding flush_writes flush_groups grouped add_to_group
  flush_writes-one arrange w ws s single same =
      rw (grouped-one w.ttl (w ∷ []) ws same, single (w.ttl, w ∷ ws)) refl

  -- A flush of writes of one time-to-live that carry no operation of the log, in whatever order Go
  -- takes the groups: it succeeds, empties the buffer and shows under every key what the same
  -- writes by `Set`, one after another, would.
  pub flush_is_sequential :
      (arrange : List Group → List Group) (b : WriteBuffer) (w : BufferedWrite)
      (ws : List BufferedWrite) (s : S) (j : String)
      → ((g : Group) → arrange (g ∷ []) ≡ g ∷ [])
      → b.buffer ≡ w ∷ ws
      → All (OfTtl w.ttl) ws
      → operations_of (w ∷ ws) ≡ []
      → let (r, after) = flush kv append arrange (b, s) in
        (r ≡ done)
        × (after.0.buffer ≡ [])
        × (contents after.1 j ≡ contents (set_each kv append (w ∷ ws) s) j)
  flush_is_sequential arrange b w ws s j single full same quiet =
      rw (flush-full arrange b w ws s full) (
        refl,
        refl,
        ap (λ s. contents s j) (flush_writes-one arrange w ws s single same)
            ∙ flush_group-contents w.ttl (w ∷ ws) s j quiet
            ∙ items_of-set_each (w ∷ ws) [] s s j (lookup-nothing j (contents s j)),
      )

  pub flush_group-single :
      (w : BufferedWrite) (k : String) (s : S)
      → w.key ≡ k
      → operations_of (w ∷ []) ≡ []
      → contents (flush_group kv append (w.ttl, w ∷ []) s) k ≡ some w.value
  unfolding items_of
  flush_group-single w k s same quiet =
      flush_group-contents w.ttl (w ∷ []) s k quiet
      ∙ ap (λ o. overlay o (contents s k))
          (subst (λ k. lookup k (insert w.key w.value []) ≡ some w.value) same
            (lookup-insert_self w.key w.value []))

  flush_writes-two :
      (arrange : List Group → List Group) (w x : BufferedWrite) (s : S)
      → same_ttl w.ttl x.ttl ≡ false
      → flush_writes kv append arrange (w ∷ x ∷ []) s
        ≡ flush_groups kv append (arrange ((w.ttl, w ∷ []) ∷ (x.ttl, x ∷ []) ∷ [])) s
  unfolding flush_writes grouped add_to_group
  flush_writes-two arrange w x s apart = rw apart refl

  -- Two buffered writes of one key with different times-to-live and no operations of the log: if
  -- Go takes the groups in the order of the writes, the store shows the later value after the
  -- flush, and if it takes them in the other order, the earlier one.
  pub older_write_wins :
      (b : WriteBuffer) (w x : BufferedWrite) (s : S)
      → b.buffer ≡ w ∷ x ∷ []
      → w.key ≡ x.key
      → same_ttl w.ttl x.ttl ≡ false
      → operations_of (w ∷ []) ≡ []
      → operations_of (x ∷ []) ≡ []
      → (contents (flush kv append (λ gs. gs) (b, s)).1.1 x.key ≡ some x.value)
        × (contents (flush kv append swapped (b, s)).1.1 x.key ≡ some w.value)
  unfolding flush_groups
  older_write_wins b w x s full same_key apart quiet quiet' = (
    rw (flush-full (λ gs. gs) b w (x ∷ []) s full, flush_writes-two (λ gs. gs) w x s apart)
        (flush_group-single x x.key (flush_group kv append (w.ttl, w ∷ []) s) refl quiet'),
    rw (flush-full swapped b w (x ∷ []) s full, flush_writes-two swapped w x s apart)
        (flush_group-single w x.key (flush_group kv append (x.ttl, x ∷ []) s) same_key quiet),
  )
