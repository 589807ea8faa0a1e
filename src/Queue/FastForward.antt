-- ===== src/Queue/FastForward.antt =====
-- cds/queue/ffqueue_sentinel.h: the FastForward queue, a ring for one producer and one consumer
-- that never compares its two indices: a cell is free when it holds the sentinel.
-- ffqueue.h is the same with a null pointer as the sentinel. Items are machine words.
pub mod Cells
pub mod Calls
pub mod Threads
pub mod Invariant
pub mod Interleave
mod Tests
use temp_data_structure_benc.Prelude.{
  ℕ, ◌+◌, ◌%◌, ◌^◌, Bool, true, false, none, some, List, [], ◌∷◌, Array, update, ◌==◌, not,
  if◌then◌else◌,
}
use temp_data_structure_benc.Fifo.{Op, put, get, Reply}

-- `head` is the index of the next cell to fill, `tail` that of the next cell to empty.
pub record FastForwardQueue : Type 0 where
  pub tail : ℕ
  pub head : ℕ
  pub sentinel : ℕ
  pub buffer : Array ℕ

-- enum { Capacity = Size + 1 }, over `unsigned int`
abbrev pub capacity : ℕ → ℕ
capacity size = (size + 1) % 2 ^ 32

abbrev pub next : ℕ → ℕ → ℕ
next size idx = (idx + 1) % 2 ^ 32 % capacity size

-- The constructor fills the `Capacity` cells with the sentinel.
abbrev pub new : ℕ → FastForwardQueue
new sentinel = record { tail = 0; head = 0; sentinel = sentinel; buffer = λ _. sentinel }

module _ (size : ℕ) where
  pub enqueue : FastForwardQueue → ℕ → Bool × FastForwardQueue
  enqueue q item =
      if not (q.sentinel == q.buffer q.head)
      then (false, q)
      else (true, record q { buffer = update q.buffer q.head item; head = next size q.head })

  -- `data = buffer[tail]` comes before the test, so a call that fails stores the sentinel in `data`.
  pub dequeue : FastForwardQueue → Reply ℕ × FastForwardQueue
  dequeue q =
      let item = q.buffer q.tail in
      if q.sentinel == item then ((false, some item), q) else (
        (true, some item),
        record q { buffer = update q.buffer q.tail q.sentinel; tail = next size q.tail },
      )
