-- ===== src/WriteBack/Kafka/Topic.antt =====
-- internal/writeback/kafka_queue.go: what `Dequeue` takes from a topic that one reader reads.
use shock_absorber.Prelude.{
  ℕ, zero, suc, ◌≡◌, refl, sym, ap, ◌∙◌, ℤ, false, List, [], ◌∷◌, ◌++◌, append-nil, append_assoc,
  take, drop, length, none, Error, ok, err, Option-cases, inl, inr, ◌-◌,
}
use shock_absorber.Core.{WriteOperation}
use shock_absorber.Store.{tail_of}
use shock_absorber.WriteBack.Memory.{positive_or}
use shock_absorber.WriteBack.Redis.{Codec, decoded}
use shock_absorber.WriteBack.Kafka.{Message, KafkaClient, KafkaQueue, consume, dequeue}

-- A reader that answers: the messages it has not read, in order, and those that are committed. With a
-- consumer group, kafka-go commits a message when it is read, and another commit of the last one
-- changes nothing. Where no message is left, the context of the read is done first.
pub record TopicLaws {C : Type 0} (kafka : KafkaClient C) (unread committed : C → List Message)
    : Type 0 where
  pub read_empty : (c : C) → unread c ≡ [] → (e : Error) × ((kafka.read_message c).0 ≡ err e)
  pub read_first :
      (c : C) (m : Message) (ms : List Message)
      → unread c ≡ m ∷ ms
      → (kafka.read_message c).0 ≡ ok m
  pub read_unread : (c : C) → unread (kafka.read_message c).1 ≡ tail_of (unread c)
  pub read_committed :
      (c : C) (m : Message) (ms : List Message)
      → unread c ≡ m ∷ ms
      → committed (kafka.read_message c).1 ≡ committed c ++ m ∷ []
  pub empty_committed : (c : C) → unread c ≡ [] → committed (kafka.read_message c).1 ≡ committed c
  pub commit_unread : (m : Message) (c : C) → unread (kafka.commit_message m c).1 ≡ unread c
  pub commit_committed :
      (m : Message) (ms : List Message) (c : C)
      → committed c ≡ ms ++ m ∷ []
      → committed (kafka.commit_message m c).1 ≡ committed c

-- The operations of messages that decode.
abbrev pub operations_in : Codec → List Message → List WriteOperation
operations_in codec [] = []
operations_in codec (m ∷ ms) = decoded (codec.decode m.value) (operations_in codec ms)

module _ {C : Type 0} (codec : Codec) (kafka : KafkaClient C) (unread committed : C → List Message)
    (laws : TopicLaws kafka unread committed) where
  one_more :
      (c : C) (m : Message) (ms : List Message) (n : ℕ) {d : C}
      → committed d ≡ committed c ++ m ∷ []
      → committed d ++ take n ms ≡ committed c ++ m ∷ take n ms
  one_more c m ms n same =
      ap (λ cs. cs ++ take n ms) same ∙ append_assoc (committed c) (m ∷ []) (take n ms)

  consume_takes :
      (n : ℕ) (c : C) (ms : List Message)
      → unread c ≡ ms
      → let (ops, d) = consume codec kafka n c in
        (ops ≡ operations_in codec (take n ms))
        × (unread d ≡ drop n ms)
        × (committed d ≡ committed c ++ take n ms)
  unfolding consume
  consume_takes zero c ms e = (refl, e, sym (append-nil (committed c)))
  consume_takes (suc n) c [] e =
      let (x, read) = laws.read_empty c e in
      let d = (kafka.read_message c).1 in
      let left : unread d ≡ [] = laws.read_unread c ∙ ap tail_of e in
      rw (consume, read) (refl, left, laws.empty_committed c e ∙ sym (append-nil (committed c)))
  consume_takes (suc n) c (m ∷ ms) e =
      let read = laws.read_first c m ms e in
      let d = (kafka.read_message c).1 in
      let same = laws.read_committed c m ms e in
      let left : unread d ≡ ms = laws.read_unread c ∙ ap tail_of e in
      let d' = (kafka.commit_message m d).1 in
      elim (Option-cases (codec.decode m.value)) [
        | inl bad ↦
            let (ops, rest, kept) = consume_takes n d ms left in
            rw (consume, read, bad) (ops, rest, kept ∙ one_more c m ms n same)
        | inr (op, good) ↦
            let (ops, rest, kept) = consume_takes n d' ms (laws.commit_unread m d ∙ left) in
            let again = laws.commit_committed m (committed c) d same in
            rw (consume, read, good)
              (ap (◌∷◌ op) ops, rest, kept ∙ one_more c m ms n (again ∙ same))
      ]

  -- A `Dequeue` of an open queue takes as many unread messages as the batch size says or as there are,
  -- and hands out, in order, the operations of those that decode. When it returns, every message it
  -- took is committed, before any operation is executed and whether or not it decodes; and the
  -- counter is lowered by the number of operations, but not below zero.
  pub dequeue_commits :
      (batch_size : ℤ) (q : KafkaQueue C)
      → q.closed ≡ false
      → let ((ops, e), q') = dequeue codec kafka batch_size q in
        let batch = take (positive_or 100 batch_size) (unread q.server) in
        (ops ≡ operations_in codec batch)
        × (e ≡ none)
        × (unread q'.server ≡ drop (positive_or 100 batch_size) (unread q.server))
        × (committed q'.server ≡ committed q.server ++ batch)
        × (q'.size ≡ q.size - length (operations_in codec batch))
  unfolding dequeue
  dequeue_commits batch_size q is_open =
      let (ops, rest, kept) =
        consume_takes (positive_or 100 batch_size) q.server (unread q.server) refl in
      rw is_open (ops, refl, rest, kept, ap (λ xs. q.size - length xs) ops)
