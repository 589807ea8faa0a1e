-- ===== src/Queue/FastForward/Invariant.antt =====
-- What every step of a producer or a consumer of a FastForward queue keeps.
use temp_data_structure_benc.Prelude.{
  ℕ, ◌+◌, ◌%◌, ◌^◌, ◌<◌, ◌≡◌, ◌≢◌, refl, sym, ap, ◌∙◌, List, [], ◌∷◌, ◌++◌, update, arith,
  append_assoc, length,
}
use native.Mathlib.Decide.{dec_lt}
use mathlib.Core.Path.{subst}
use temp_data_structure_benc.Queue.FastForward.{FastForwardQueue}
use temp_data_structure_benc.Queue.FastForward.Cells.{
  Cells, tail_first, tail_free, head_taken, Cells-put, Cells-get,
}
use temp_data_structure_benc.Queue.FastForward.Calls.{next-eq, new-Holds}
use temp_data_structure_benc.Queue.FastForward.Threads.{
  Producer, Consumer, System, start, Step, begin_enqueue, find_full, find_room, fill, move_head,
  find_empty, find_item, take, move_tail, Reach, here, next,
}

module _ (size : ℕ) where
  -- The index that the producer fills next, and the one that the consumer empties next, once the
  -- thread has made the move that it is about to make.
  abbrev pub head_of : FastForwardQueue → Producer → ℕ
  head_of q Producer.move = (q.head + 1) % (size + 1)
  head_of q _ = q.head

  abbrev pub tail_of : FastForwardQueue → Consumer → ℕ
  tail_of q Consumer.move = (q.tail + 1) % (size + 1)
  tail_of q _ = q.tail

  abbrev pub ProducerIsSound : FastForwardQueue → Producer → Type 0
  ProducerIsSound q Producer.idle = Unit
  ProducerIsSound q (Producer.test x) = x ≢ q.sentinel
  ProducerIsSound q (Producer.store x) = (x ≢ q.sentinel) × (q.buffer q.head ≡ q.sentinel)
  ProducerIsSound q Producer.move = Unit

  abbrev pub ConsumerIsSound : FastForwardQueue → Consumer → Type 0
  ConsumerIsSound q (Consumer.clear x) = (x ≢ q.sentinel) × (q.buffer q.tail ≡ x)
  ConsumerIsSound q _ = Unit

  -- `items` are those that the producer has stored and the consumer has not cleared.
  pub record Inv (s : System) (items : List ℕ) : Type 0 where
    pub small : size + 1 < 2 ^ 32
    pub head_in : s.queue.head < size + 1
    pub tail_in : s.queue.tail < size + 1
    pub cells :
        Cells
          (size + 1)
          s.queue.sentinel
          s.queue.buffer
          (tail_of s.queue s.consumer)
          (head_of s.queue s.producer)
          items
    pub producer : ProducerIsSound s.queue s.producer
    pub consumer : ConsumerIsSound s.queue s.consumer
    pub history : s.pushed ≡ s.popped ++ items

module _ {size : ℕ} where
  start-Inv : (sentinel : ℕ) → size + 1 < 2 ^ 32 → Inv size (start sentinel) []
  start-Inv sentinel h = record {
    small = h;
    head_in = omega arith;
    tail_in = omega arith;
    cells = (new-Holds size sentinel h).cells;
    producer = tt;
    consumer = tt;
    history = refl;
  }

  fill-Inv :
      {s : System} (items : List ℕ) (x : ℕ)
      → s.producer ≡ Producer.store x
      → Inv size s items
      → Inv size
          (record s {
            queue = record (s.queue) { buffer = update s.queue.buffer s.queue.head x };
            producer = Producer.move;
            pushed = s.pushed ++ (x ∷ []);
          })
          (items ++ (x ∷ []))
  fill-Inv {s} items x e v = record {
    small = v.small;
    head_in = v.head_in;
    tail_in = v.tail_in;
    cells = Cells-put cells sound.0 room;
    producer = tt;
    consumer = ground (arith, sound);
    history = rw v.history (append_assoc s.popped items (x ∷ []));
  }
    where
      cells :
          Cells
            (size + 1)
            s.queue.sentinel
            s.queue.buffer
            (tail_of size s.queue s.consumer)
            s.queue.head
            items
      cells =
          subst
            (λ p.
              Cells (size + 1) s.queue.sentinel s.queue.buffer (tail_of size s.queue s.consumer)
                (head_of size s.queue p) items)
            e v.cells

      sound : (x ≢ s.queue.sentinel) × (s.queue.buffer s.queue.head ≡ s.queue.sentinel)
      sound = subst (ProducerIsSound size s.queue) e v.producer

      room : length items < size + 1
      room = elim (dec_lt (length items) (size + 1)) [
        | yes h ↦ h
        | no full ↦ absurd (head_taken cells (omega (arith, cells.fits)) sound.1)
      ]

  take-Inv :
      {s : System} (items : List ℕ) (x : ℕ)
      → s.consumer ≡ Consumer.clear x
      → Cells
          (size + 1)
          s.queue.sentinel
          s.queue.buffer
          s.queue.tail
          (head_of size s.queue s.producer)
          items
      → (x ≢ s.queue.sentinel) × (s.queue.buffer s.queue.tail ≡ x)
      → Inv size s items
      → (rest : List ℕ) × Inv size
          (record s {
            queue = record (s.queue) {
              buffer = update s.queue.buffer s.queue.tail s.queue.sentinel;
            };
            consumer = Consumer.move;
            popped = s.popped ++ (x ∷ []);
          })
          rest
  take-Inv [] x e c sound v = absurd (sound.0 (sym sound.1 ∙ tail_free c))
  take-Inv {s} (y ∷ rest) x e c sound v = (
    rest,
    record {
      small = v.small;
      head_in = v.head_in;
      tail_in = v.tail_in;
      cells = Cells-get c;
      producer = ground arith;
      consumer = tt;
      history =
          v.history
          ∙ ap (λ z. s.popped ++ (z ∷ rest)) (sym (tail_first c) ∙ sound.1)
          ∙ sym (append_assoc s.popped (x ∷ []) rest);
    },
  )

  -- Every step keeps the invariant, with the items that are then in the cells.
  Step-Inv :
      {s t : System} (items : List ℕ)
      → Step size s t
      → Inv size s items
      → (items' : List ℕ) × Inv size t items'
  Step-Inv {s} items (begin_enqueue x e ne) v = (items, ground arith)
  Step-Inv {s} items (find_full x e ne) v = (items, ground arith)
  Step-Inv {s} items (find_room x e f) v = (items, ground arith)
  Step-Inv {s} items (fill x e) v = (items ++ (x ∷ []), fill-Inv items x e v)
  Step-Inv {s} items (move_head e) v =
      (items, ground (arith, next-eq size s.queue.head v.small v.head_in))
  Step-Inv {s} items (find_empty e f) v = (items, v)
  Step-Inv {s} items (find_item e ne) v = (items, ground arith)
  Step-Inv {s} items (take x e) v =
      take-Inv items x e
        (subst
          (λ c.
            Cells (size + 1) s.queue.sentinel s.queue.buffer (tail_of size s.queue c)
              (head_of size s.queue s.producer) items)
          e v.cells)
        (subst (ConsumerIsSound size s.queue) e v.consumer) v
  Step-Inv {s} items (move_tail e) v =
      (items, ground (arith, next-eq size s.queue.tail v.small v.tail_in))

  pub Reach-Inv :
      {sentinel : ℕ} {s : System}
      → size + 1 < 2 ^ 32
      → Reach size sentinel s
      → (items : List ℕ) × Inv size s items
  Reach-Inv {sentinel} h here = ([], start-Inv sentinel h)
  Reach-Inv h (next r st) = let (items, v) = Reach-Inv h r in Step-Inv items st v
