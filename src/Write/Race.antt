-- ===== src/Write/Race.antt =====
-- internal/write/buffer.go: flushes of several goroutines. `Flush` takes the writes out of the buffer under
-- its lock, gives the lock up and then stores them.
use shock_absorber.Prelude.{
  ◌+◌, ◌≡◌, refl, ap, ◌∙◌, pos, le_ℤ, String, false, List, [], ◌∷◌, ◌++◌, Option, some, Exec, arith,
}
use shock_absorber.Store.{Bytes, KvOps}
use shock_absorber.Table.State.{WalOperation}
use shock_absorber.Write.Buffer.{
  BufferedWrite, WriteBuffer, Group, operations_of, write, flush_writes,
}
use shock_absorber.Write.Flushes.{BatchLaws, flush_writes-one, flush_group-single}

-- The buffer, the store, and what the flushes have taken and not stored yet.
pub record Shared (S : Type 0) : Type 0 where
  pub buffer : WriteBuffer
  pub store : S
  pub in_flight : List (List BufferedWrite)

module _ {S : Type 0} (kv : KvOps S) (append : WalOperation → Exec S (Unit {0}))
    (arrange : List Group → List Group) where
  -- A call of `Write`, and the two halves of a `Flush` of a buffer that is not empty.
  pub data Step (x y : Shared S) : Type 0 where
    writes : (w : BufferedWrite) → y ≡ record x { buffer = (write w x.buffer).1 } → Step x y
    takes :
        (w : BufferedWrite) (ws : List BufferedWrite)
        → x.buffer.buffer ≡ w ∷ ws
        → y ≡ record x {
          buffer = record x.buffer { buffer = [] };
          in_flight = x.in_flight ++ (w ∷ ws) ∷ [];
        }
        → Step x y
    stores :
        (earlier : List (List BufferedWrite)) (ws : List BufferedWrite)
        (later : List (List BufferedWrite))
        → x.in_flight ≡ earlier ++ ws ∷ later
        → y ≡ record {
          buffer = record x.buffer { total_flushes = x.buffer.total_flushes + 1 };
          store = flush_writes kv append arrange ws x.store;
          in_flight = earlier ++ later;
        }
        → Step x y

  pub data Reach (x : Shared S) : Shared S → Type 0 where
    here : Reach x x
    next : {y z : Shared S} → Reach x y → Step y z → Reach x z

write-empty :
    (w : BufferedWrite) (b : WriteBuffer)
    → b.buffer ≡ []
    → b.closed ≡ false
    → le_ℤ b.config.max_size (pos 0) ≡ false
    → ((write w b).1.buffer ≡ w ∷ [])
      × ((write w b).1.closed ≡ false)
      × (le_ℤ (write w b).1.config.max_size (pos 0) ≡ false)
unfolding write
write-empty w b empty is_open room = ground arith

module _ {S : Type 0} (kv : KvOps S) (append : WalOperation → Exec S (Unit {0}))
    (arrange : List Group → List Group) (contents : S → String → Option Bytes)
    (laws : BatchLaws kv contents) (single : (g : Group) → arrange (g ∷ []) ≡ g ∷ []) where
  stored-one :
      (w : BufferedWrite) (k : String) (s : S)
      → w.key ≡ k
      → operations_of (w ∷ []) ≡ []
      → contents (flush_writes kv append arrange (w ∷ []) s) k ≡ some w.value
  stored-one w k s same quiet =
      ap (λ s. contents s k) (flush_writes-one kv append contents laws arrange w [] s single tt)
      ∙ flush_group-single kv append contents laws w k s same quiet

  -- On an open, empty buffer with room, two writes of one key, the second after the first, each flushed
  -- by a `Flush` of its own, can end with nothing left in the buffer or in flight and the first value
  -- under the key.
  pub flushes_race :
      (b : WriteBuffer) (s : S) (w x : BufferedWrite)
      → b.buffer ≡ []
      → b.closed ≡ false
      → le_ℤ b.config.max_size (pos 0) ≡ false
      → w.key ≡ x.key
      → operations_of (w ∷ []) ≡ []
      → (y : Shared S) × Reach kv append arrange
          (record { buffer = b; store = s; in_flight = [] })
          y
        × (y.buffer.buffer ≡ [])
        × (y.in_flight ≡ [])
        × (contents y.store x.key ≡ some w.value)
  flushes_race b s w x empty is_open room same quiet =
      let flushed : List BufferedWrite → S → S = flush_writes kv append arrange in
      let b1 = (write w b).1 in
      let (holds1, open1, room1) = write-empty w b empty is_open room in
      let b2 : WriteBuffer = record b1 { buffer = [] } in
      let b3 = (write x b2).1 in
      let (holds3, _, _) = write-empty x b2 refl open1 room1 in
      let b4 : WriteBuffer = record b3 { buffer = [] } in
      let b5 : WriteBuffer = record b4 { total_flushes = b4.total_flushes + 1 } in
      let b6 : WriteBuffer = record b5 { total_flushes = b5.total_flushes + 1 } in
      let one = w ∷ [] in
      let two = x ∷ [] in
      let x1 : Shared S = record { buffer = b1; store = s; in_flight = [] } in
      let x2 : Shared S = record { buffer = b2; store = s; in_flight = one ∷ [] } in
      let x3 : Shared S = record { buffer = b3; store = s; in_flight = one ∷ [] } in
      let x4 : Shared S = record { buffer = b4; store = s; in_flight = one ∷ two ∷ [] } in
      let x5 : Shared S = record { buffer = b5; store = flushed two s; in_flight = one ∷ [] } in
      let x6 : Shared S = record {
        buffer = b6;
        store = flushed one (flushed two s);
        in_flight = [];
      } in
      let x0 : Shared S = record { buffer = b; store = s; in_flight = [] } in
      let taken : Reach kv append arrange x0 x2 =
        next {y = x1} (next {y = x0} here (writes w refl)) (takes w [] holds1 refl) in
      let taken2 : Reach kv append arrange x0 x4 =
        next {y = x3} (next {y = x2} taken (writes x refl)) (takes x [] holds3 refl) in
      let stored : Reach kv append arrange x0 x5 =
        next {y = x4} taken2 (stores (one ∷ []) two [] refl refl) in
      (
        x6,
        next {y = x5} stored (stores [] one [] refl refl),
        refl,
        refl,
        stored-one w x.key (flushed two s) same quiet,
      )
