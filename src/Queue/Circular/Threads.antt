-- ===== src/Queue/Circular/Threads.antt =====
-- `CircularFifo` of csqueue.h with one producer and one consumer thread: every access to the shared
-- `tail`, `head` and `array` is a step, and the steps interleave in any order. The `volatile`
-- accesses are taken to be sequentially consistent.
use temp_data_structure_benc.Prelude.{ℕ, ◌≡◌, ◌≢◌, List, [], ◌∷◌, ◌++◌, Array, update}
use temp_data_structure_benc.Queue.Circular.{CircularFifo, increment, new}

-- Where the producer stands in `push`, with its locals.
pub data Producer (A : Type 0) : Type 0 where
  idle : Producer A
  compare_head : (item : A) (next_tail : ℕ) → Producer A  -- before the read of `head`
  store_item : (item : A) (next_tail : ℕ) → Producer A  -- before the write of `array[tail]`
  store_tail : (item : A) (next_tail : ℕ) → Producer A  -- before the write of `tail`

-- Where the consumer stands in `pop`.
pub data Consumer (A : Type 0) : Type 0 where
  idle : Consumer A
  load_item : Consumer A  -- before the read of `array[head]`
  store_head : (item : A) → Consumer A  -- before the write of `head`

-- The shared object, the two threads, and what the calls that have returned `true` moved.
pub record System (A : Type 0) : Type 0 where
  pub fifo : CircularFifo A
  pub producer : Producer A
  pub consumer : Consumer A
  pub pushed : List A
  pub popped : List A

module _ {A : Type 0} where
  abbrev pub start : Array A → System A
  start garbage = record {
    fifo = new garbage;
    producer = Producer.idle;
    consumer = Consumer.idle;
    pushed = [];
    popped = [];
  }

module _ {A : Type 0} (size : ℕ) where
  -- One access of one thread.
  pub data Step (s : System A) : System A → Type 0 where
    begin_push :
        (item : A)
        → s.producer ≡ Producer.idle
        → Step s (record s { producer = Producer.compare_head item (increment size s.fifo.tail) })
    push_full :
        (item : A) (next : ℕ)
        → s.producer ≡ Producer.compare_head item next
        → next ≡ s.fifo.head
        → Step s (record s { producer = Producer.idle })
    push_room :
        (item : A) (next : ℕ)
        → s.producer ≡ Producer.compare_head item next
        → next ≢ s.fifo.head
        → Step s (record s { producer = Producer.store_item item next })
    write_item :
        (item : A) (next : ℕ)
        → s.producer ≡ Producer.store_item item next
        → Step s (record s {
          fifo = record (s.fifo) { array = update s.fifo.array s.fifo.tail item };
          producer = Producer.store_tail item next;
        })
    end_push :
        (item : A) (next : ℕ)
        → s.producer ≡ Producer.store_tail item next
        → Step s (record s {
          fifo = record (s.fifo) { tail = next };
          producer = Producer.idle;
          pushed = s.pushed ++ (item ∷ []);
        })
    pop_empty : s.consumer ≡ Consumer.idle → s.fifo.head ≡ s.fifo.tail → Step s s
    begin_pop :
        s.consumer ≡ Consumer.idle
        → s.fifo.head ≢ s.fifo.tail
        → Step s (record s { consumer = Consumer.load_item })
    read_item :
        s.consumer ≡ Consumer.load_item
        → Step s (record s { consumer = Consumer.store_head (s.fifo.array s.fifo.head) })
    end_pop :
        (item : A)
        → s.consumer ≡ Consumer.store_head item
        → Step s (record s {
          fifo = record (s.fifo) { head = increment size s.fifo.head };
          consumer = Consumer.idle;
          popped = s.popped ++ (item ∷ []);
        })

  pub data Reach (garbage : Array A) : System A → Type 0 where
    here : Reach garbage (start garbage)
    next : {s t : System A} → Reach garbage s → Step s t → Reach garbage t
