-- ===== src/Write/Buffer.antt =====
-- internal/write/buffer.go: `WriteBuffer`, whose configuration has no negative flush size and a positive
-- timeout (the constructor panics at others). Go goes through the groups of one flush in any order: a
-- flush is given the arrangement of the groups. Each call holds the lock while it reads or changes
-- the buffer; the goroutine `flusher` only calls `Flush`. A flush is one step here; Race has its halves.
use shock_absorber.Prelude.{
  ℕ, ◌+◌, String, ℤ, pos, negsuc, num_eq, Bool, true, false, List, [], ◌∷◌, ◌++◌, length, Option,
  none, some, Map, insert, le_ℤ, is_zero, errorf, Error, ok, err, Done, done, Exec, if◌then◌else◌,
}
use shock_absorber.Store.{Bytes, KvOps}
use shock_absorber.Table.State.{WalOperation}

abbrev pub err_buffer_full : Error
err_buffer_full = errorf "write buffer is full" []

abbrev pub err_buffer_closed : Error
err_buffer_closed = errorf "write buffer is closed" []

-- `BufferedWrite`
pub record BufferedWrite : Type 0 where
  pub key : String
  pub value : Bytes
  pub ttl : ℤ
  pub operation : Option WalOperation

-- `WriteBufferConfig`; the timeout is in nanoseconds.
pub record WriteBufferConfig : Type 0 where
  pub max_size : ℤ
  pub flush_size : ℤ
  pub flush_timeout : ℤ

-- `DefaultWriteBufferConfig`
abbrev pub default_write_buffer_config : WriteBufferConfig
default_write_buffer_config = record {
  max_size = pos 1000;
  flush_size = pos 100;
  flush_timeout = pos 100000000;
}

-- `WriteBuffer`; `signalled` says that the channel `flushCh`, which holds one signal, is full.
pub record WriteBuffer : Type 0 where
  pub config : WriteBufferConfig
  pub buffer : List BufferedWrite
  pub closed : Bool
  pub signalled : Bool
  pub total_flushes : ℕ
  pub total_writes : ℕ

-- `NewWriteBuffer`
unfoldable pub new_write_buffer : WriteBufferConfig → WriteBuffer
new_write_buffer config = record {
  config = if is_zero config.max_size then default_write_buffer_config else config;
  buffer = [];
  closed = false;
  signalled = false;
  total_flushes = 0;
  total_writes = 0;
}

-- `Write`
unfoldable pub write : BufferedWrite → Exec WriteBuffer (Unit {0})
write w b =
    let buffer = b.buffer ++ w ∷ [] in
    if b.closed
    then (err err_buffer_closed, b)
    else if le_ℤ b.config.max_size (pos (length b.buffer))
    then (err err_buffer_full, b)
    else (
      done,
      record b {
        buffer = buffer;
        total_writes = b.total_writes + 1;
        signalled = if le_ℤ b.config.flush_size (pos (length buffer)) then true else b.signalled;
      },
    )

-- `Size`
abbrev pub size : WriteBuffer → ℕ
size b = length b.buffer

abbrev pub same_ttl : ℤ → ℤ → Bool
same_ttl (pos n) (pos m) = num_eq n m
same_ttl (negsuc n) (negsuc m) = num_eq n m
same_ttl _ _ = false

abbrev pub Group : Type 0
Group = ℤ × List BufferedWrite

-- ttlGroups[write.TTL] = append(ttlGroups[write.TTL], write)
unfoldable pub add_to_group : BufferedWrite → List Group → List Group
add_to_group w [] = (w.ttl, w ∷ []) ∷ []
add_to_group w ((ttl, ws) ∷ rest) =
    if same_ttl ttl w.ttl then (ttl, ws ++ w ∷ []) ∷ rest else (ttl, ws) ∷ add_to_group w rest

unfoldable pub grouped : List Group → List BufferedWrite → List Group
unfolding add_to_group
grouped groups [] = groups
grouped groups (w ∷ ws) = grouped (add_to_group w groups) ws

-- The map `items` of a group: of two writes of a key, the later counts.
unfoldable pub items_of : Map Bytes → List BufferedWrite → Map Bytes
items_of m [] = m
items_of m (w ∷ ws) = items_of (insert w.key w.value m) ws

unfoldable pub operations_of : List BufferedWrite → List WalOperation
operations_of [] = []
operations_of (w ∷ ws) =
    let rest = operations_of ws in elim w.operation [ none ↦ rest | some op ↦ op ∷ rest ]

module _ {S : Type 0} (kv : KvOps S) (append : WalOperation → Exec S (Unit {0})) where
  -- The writes of a group one after another, each error dropped.
  unfoldable pub set_each : List BufferedWrite → S → S
  set_each [] s = s
  set_each (w ∷ ws) s = set_each ws (kv.set w.key w.value w.ttl s).1

  unfoldable pub append_each : List WalOperation → S → S
  append_each [] s = s
  append_each (op ∷ ops) s = append_each ops (append op s).1

  unfoldable pub after_batch : List BufferedWrite → Done × S → S
  unfolding set_each
  after_batch ws (ok u, s) = s
  after_batch ws (err e, s) = set_each ws s

  -- The body of the loop over the groups.
  unfoldable pub flush_group : Group → S → S
  unfolding after_batch append_each operations_of items_of
  flush_group (ttl, ws) s =
      append_each (operations_of ws) (after_batch ws (kv.batch_set (items_of [] ws) ttl s))

  unfoldable pub flush_groups : List Group → S → S
  unfolding flush_group
  flush_groups [] s = s
  flush_groups (g ∷ gs) s = flush_groups gs (flush_group g s)

  -- `flushWrites`, on the state of the KV store
  unfoldable pub flush_writes : (List Group → List Group) → List BufferedWrite → S → S
  unfolding flush_groups grouped
  flush_writes arrange writes s = flush_groups (arrange (grouped [] writes)) s

  -- `Flush`
  unfoldable pub flush : (List Group → List Group) → Exec (WriteBuffer × S) (Unit {0})
  unfolding flush_writes
  flush arrange (b, s) = elim b.buffer [
    | [] ↦ (done, (b, s))
    | w ∷ ws ↦ (
      done,
      (
        record b { buffer = []; total_flushes = b.total_flushes + 1 },
        flush_writes arrange (w ∷ ws) s,
      ),
    )
  ]

  -- `Close`: the flusher flushes once more and returns, then `Close` flushes what came meanwhile.
  unfoldable pub close : (List Group → List Group) → Exec (WriteBuffer × S) (Unit {0})
  unfolding flush
  close arrange (b, s) =
      let flushed = (flush arrange (record b { closed = true }, s)).1 in
      if b.closed then (done, (b, s)) else flush arrange flushed
