-- ===== src/WriteBack/Redis/Lists.antt =====
-- What the queue of internal/writeback/queue.go does to the lists of a Redis that answers.
use shock_absorber.Prelude.{
  ℕ, zero, suc, String, ℤ, ◌≡◌, ◌≢◌, refl, sym, ap, ◌∙◌, false, List, [], ◌∷◌, ◌++◌, none, some, ok,
  done, if◌then◌else◌, ◌==◌, eq_iff, eq_refl, arith, take, drop, sprintf_cancel,
}
use shock_absorber.Core.{WriteOperation}
use shock_absorber.Store.{Bytes, ListOps, ListLaws, tail_of}
use shock_absorber.WriteBack.Memory.{positive_or}
use shock_absorber.WriteBack.Redis.{
  Codec, RedisQueue, get_queue_key, get_global_queue_key, push_lists, enqueue, decoded, pop_loop,
  dequeue, stamped,
}

-- The operations whose texts a list holds; a text that does not decode is left out.
abbrev pub operations_of : Codec → List Bytes → List WriteOperation
operations_of codec [] = []
operations_of codec (b ∷ bs) = decoded (codec.decode b) (operations_of codec bs)

module _ {S : Type 0} (ops : ListOps S) (contents : S → String → List Bytes)
    (laws : ListLaws ops contents) (codec : Codec) where
  abbrev after_pop : String → S → S
  after_pop key s = (ops.list_pop key s).1

  popped_key : (key : String) (s : S) → contents (after_pop key s) key ≡ tail_of (contents s key)
  popped_key key s = rw (laws.pop_contents key key s, eq_refl key) refl

  -- Popping hands out the oldest texts, leaves the rest, and touches no other list.
  pop_loop_takes :
      (key : String) (n : ℕ) (s : S) (l : List Bytes)
      → contents s key ≡ l
      → ((pop_loop codec ops key n s).0 ≡ operations_of codec (take n l))
        × (contents (pop_loop codec ops key n s).1 key ≡ drop n l)
  unfolding pop_loop
  pop_loop_takes key zero s l e = (refl, e)
  pop_loop_takes key (suc n) s [] e =
      rw (laws.pop_empty key s e, pop_loop) (refl, popped_key key s ∙ ap tail_of e)
  pop_loop_takes key (suc n) s (b ∷ bs) e =
      let (taken, left) =
        pop_loop_takes key n (after_pop key s) bs (popped_key key s ∙ ap tail_of e) in
      rw (laws.pop_first key s b bs e, pop_loop) (ap (decoded (codec.decode b)) taken, left)

  pop_loop_others :
      (key j : String) (n : ℕ) (s : S)
      → key ≢ j
      → contents (pop_loop codec ops key n s).1 j ≡ contents s j
  unfolding pop_loop
  pop_loop_others key j zero s h = refl
  pop_loop_others key j (suc n) s h =
      ground (
        arith,
        laws.pop_contents key j s,
        pop_loop_others key j n (after_pop key s) h,
        eq_iff key j,
      )

  module _ (q : RedisQueue S) (has_ops : q.ops ≡ some ops) (open_queue : q.closed ≡ false) where
    -- `Dequeue` on an open queue over a server with list operations hands out the oldest
    -- operations of the global list, as many as there are up to the batch size, leaving out what
    -- does not decode; the rest stays in order. The list of a table, of any name but "global", is
    -- left as it was.
    pub dequeue_global :
        (b : ℤ) (table : String) (s : S)
        → table ≢ "global"
        → let (batch, s') = dequeue codec q b s in
          (batch ≡ (
            operations_of codec (take (positive_or 100 b) (contents s (get_global_queue_key q))),
            none,
          ))
          × (contents s' (get_global_queue_key q)
              ≡ drop (positive_or 100 b) (contents s (get_global_queue_key q)))
          × (contents s' (get_queue_key q table) ≡ contents s (get_queue_key q table))
    unfolding dequeue
    dequeue_global b table s h =
        let (taken, left) = pop_loop_takes (get_global_queue_key q) (positive_or 100 b) s _ refl in
        rw (open_queue, has_ops, dequeue)
          (
            ap (λ (l : List WriteOperation). (l, none)) taken,
            left,
            pop_loop_others (get_global_queue_key q) (get_queue_key q table) (positive_or 100 b) s
                (λ e. h (sym (sprintf_cancel q.prefix ":" "global" table e))),
          )

    -- The server after both pushes of an operation on a table.
    abbrev pushed : String → Bytes → S → S
    pushed table bytes s =
        (ops.list_push (get_global_queue_key q) bytes
          (ops.list_push (get_queue_key q table) bytes s).1).1

    enqueue-pushed :
        (clock : ℕ) (op : WriteOperation) (bytes : Bytes) (s : S)
        → op.table ≢ ""
        → codec.encode (stamped clock op) ≡ ok bytes
        → enqueue codec clock q (some op) s ≡ (done, pushed op.table bytes s)
    unfolding enqueue push_lists
    enqueue-pushed clock op bytes s named e =
        rw (open_queue, enqueue)
          (ground (
            arith,
            has_ops,
            e,
            eq_iff op.table "",
            laws.push_ok (get_queue_key q op.table) bytes s,
            laws.push_ok (get_global_queue_key q) bytes
                (ops.list_push (get_queue_key q op.table) bytes s).1,
          ))

    pushed-contents :
        (table j : String) (bytes : Bytes) (s : S)
        → contents (pushed table bytes s) j ≡ (
            if get_global_queue_key q == j
            then (if get_queue_key q table == get_global_queue_key q
                then contents s (get_queue_key q table) ++ bytes ∷ []
                else contents s (get_global_queue_key q))
              ++ bytes ∷ []
            else if get_queue_key q table == j
            then contents s (get_queue_key q table) ++ bytes ∷ []
            else contents s j)
    pushed-contents table j bytes s = simp laws.push_contents

    -- `Enqueue` on an open queue over a server with list operations, of an operation on a table of
    -- any name but the empty one and "global", whose text is `bytes`: it returns no error, and
    -- `bytes` goes to the end of the table's list and of the global list.
    pub enqueue_lists :
        (clock : ℕ) (op : WriteOperation) (bytes : Bytes) (s : S)
        → op.table ≢ ""
        → op.table ≢ "global"
        → codec.encode (stamped clock op) ≡ ok bytes
        → let (r, s') = enqueue codec clock q (some op) s in
          (r ≡ done)
          × (contents s' (get_queue_key q op.table)
              ≡ contents s (get_queue_key q op.table) ++ bytes ∷ [])
          × (contents s' (get_global_queue_key q)
              ≡ contents s (get_global_queue_key q) ++ bytes ∷ [])
    enqueue_lists clock op bytes s named h e =
        let apart = λ (f : get_queue_key q op.table ≡ get_global_queue_key q).
          h (sprintf_cancel q.prefix ":" op.table "global" f) in
        rw (enqueue-pushed clock op bytes s named e) (
          refl,
          ground (
            arith,
            apart,
            pushed-contents op.table (get_queue_key q op.table) bytes s,
            eq_refl (get_queue_key q op.table),
            eq_iff (get_global_queue_key q) (get_queue_key q op.table),
          ),
          ground (
            arith,
            apart,
            pushed-contents op.table (get_global_queue_key q) bytes s,
            eq_refl (get_global_queue_key q),
            eq_iff (get_queue_key q op.table) (get_global_queue_key q),
          ),
        )

    -- `Enqueue` on an open queue over a server with list operations, of an operation on a table
    -- called "global": its text enters the global list twice.
    pub enqueue_global_twice :
        (clock : ℕ) (op : WriteOperation) (bytes : Bytes) (s : S)
        → op.table ≡ "global"
        → codec.encode (stamped clock op) ≡ ok bytes
        → contents (enqueue codec clock q (some op) s).1 (get_global_queue_key q)
          ≡ (contents s (get_global_queue_key q) ++ bytes ∷ []) ++ bytes ∷ []
    enqueue_global_twice clock op bytes s h e =
        rw (enqueue-pushed clock op bytes s (λ empty. named (sym h ∙ empty)) e) (
          rw h (
            rw
              (
                pushed-contents "global" (get_global_queue_key q) bytes s,
                eq_refl (get_global_queue_key q),
              )
              refl))
      where
        named : ◌≢◌ {A = String} "global" ""
        named = ground (arith, eq_iff "global" "")
