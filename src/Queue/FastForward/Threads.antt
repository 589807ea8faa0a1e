-- ===== src/Queue/FastForward/Threads.antt =====
-- The queue of ffqueue_sentinel.h with one producer and one consumer thread. `head` is read and
-- written by the producer alone and `tail` by the consumer alone: the threads meet in the cells.
-- Every access to a cell and every write of an index is a step; the `volatile` accesses are taken
-- to be sequentially consistent. The clients enqueue no sentinel.
use temp_data_structure_benc.Prelude.{ℕ, ◌≡◌, ◌≢◌, List, [], ◌∷◌, ◌++◌, update}
use temp_data_structure_benc.Queue.FastForward
use temp_data_structure_benc.Queue.FastForward.{FastForwardQueue, new}

-- Where the producer stands in `enqueue`.
pub data Producer : Type 0 where
  idle : Producer
  test : (item : ℕ) → Producer  -- before the read of `buffer[head]`
  store : (item : ℕ) → Producer  -- before the write of `buffer[head]`
  move : Producer  -- before the write of `head`

-- Where the consumer stands in `dequeue`.
pub data Consumer : Type 0 where
  idle : Consumer
  clear : (item : ℕ) → Consumer  -- before the write of `buffer[tail]`
  move : Consumer  -- before the write of `tail`

-- The shared object, the two threads, and what they have put into the cells and taken out.
pub record System : Type 0 where
  pub queue : FastForwardQueue
  pub producer : Producer
  pub consumer : Consumer
  pub pushed : List ℕ
  pub popped : List ℕ

abbrev pub start : ℕ → System
start sentinel = record {
  queue = new sentinel;
  producer = Producer.idle;
  consumer = Consumer.idle;
  pushed = [];
  popped = [];
}

-- One access of one thread.
pub data Step (size : ℕ) (s : System) : System → Type 0 where
  begin_enqueue :
      (item : ℕ)
      → s.producer ≡ Producer.idle
      → item ≢ s.queue.sentinel
      → Step size s (record s { producer = Producer.test item })
  find_full :
      (item : ℕ)
      → s.producer ≡ Producer.test item
      → s.queue.buffer s.queue.head ≢ s.queue.sentinel
      → Step size s (record s { producer = Producer.idle })
  find_room :
      (item : ℕ)
      → s.producer ≡ Producer.test item
      → s.queue.buffer s.queue.head ≡ s.queue.sentinel
      → Step size s (record s { producer = Producer.store item })
  fill :
      (item : ℕ)
      → s.producer ≡ Producer.store item
      → Step size s (record s {
        queue = record (s.queue) { buffer = update s.queue.buffer s.queue.head item };
        producer = Producer.move;
        pushed = s.pushed ++ (item ∷ []);
      })
  move_head :
      s.producer ≡ Producer.move
      → Step size s (record s {
        queue = record (s.queue) { head = FastForward.next size s.queue.head };
        producer = Producer.idle;
      })
  find_empty :
      s.consumer ≡ Consumer.idle → s.queue.buffer s.queue.tail ≡ s.queue.sentinel → Step size s s
  find_item :
      s.consumer ≡ Consumer.idle
      → s.queue.buffer s.queue.tail ≢ s.queue.sentinel
      → Step size s (record s { consumer = Consumer.clear (s.queue.buffer s.queue.tail) })
  take :
      (item : ℕ)
      → s.consumer ≡ Consumer.clear item
      → Step size s (record s {
        queue = record (s.queue) { buffer = update s.queue.buffer s.queue.tail s.queue.sentinel };
        consumer = Consumer.move;
        popped = s.popped ++ (item ∷ []);
      })
  move_tail :
      s.consumer ≡ Consumer.move
      → Step size s (record s {
        queue = record (s.queue) { tail = FastForward.next size s.queue.tail };
        consumer = Consumer.idle;
      })

pub data Reach (size sentinel : ℕ) : System → Type 0 where
  here : Reach size sentinel (start sentinel)
  next : {s t : System} → Reach size sentinel s → Step size s t → Reach size sentinel t
