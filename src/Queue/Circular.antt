-- ===== src/Queue/Circular.antt =====
-- cds/queue/csqueue.h, and its copy spsc_queue.h: `CircularFifo`, a ring for one producer and one
-- consumer. `Size` and the indices are `unsigned int`.
pub mod Refine
pub mod Run
pub mod Threads
pub mod Interleave
mod Tests
use temp_data_structure_benc.Prelude.{
  ℕ, ◌+◌, ◌%◌, ◌^◌, Bool, true, false, none, some, List, [], ◌∷◌, Array, update, ◌==◌, not,
  if◌then◌else◌,
}
use temp_data_structure_benc.Fifo.{Op, put, get, Reply}

abbrev pub u32 : ℕ → ℕ
u32 n = n % 2 ^ 32

-- The cells that no item has reached hold whatever the elements' constructor left there.
pub record CircularFifo (A : Type 0) : Type 0 where
  pub tail : ℕ
  pub array : Array A
  pub head : ℕ

-- enum { Capacity = Size + 1 }
abbrev pub capacity : ℕ → ℕ
capacity size = u32 (size + 1)

abbrev pub increment : ℕ → ℕ → ℕ
increment size idx = u32 (idx + 1) % capacity size

module _ {A : Type 0} where
  abbrev pub new : Array A → CircularFifo A
  new garbage = record { tail = 0; array = garbage; head = 0 }

module _ {A : Type 0} (size : ℕ) where
  -- `int nextTail` goes back to `unsigned` in the comparison and in the assignment, unchanged.
  pub push : CircularFifo A → A → Bool × CircularFifo A
  push q item =
      let next_tail = increment size q.tail in
      if not (next_tail == q.head)
      then (true, record q { array = update q.array q.tail item; tail = next_tail })
      else (false, q)

  pub pop : CircularFifo A → Reply A × CircularFifo A
  pop q =
      if q.head == q.tail
      then ((false, none), q)
      else ((true, some (q.array q.head)), record q { head = increment size q.head })

  pub is_full : CircularFifo A → Bool
  is_full q = u32 (q.tail + 1) % capacity size == q.head

module _ {A : Type 0} where
  pub is_empty : CircularFifo A → Bool
  is_empty q = q.head == q.tail

-- A client's calls in order, with what each returns.
module _ {A : Type 0} (size : ℕ) where
  pub run : CircularFifo A → List (Op A) → List (Reply A)
  run q [] = []
  run q (put x ∷ ops) = let (ok, q') = push size q x in (ok, none) ∷ run q' ops
  run q (get ∷ ops) = let (r, q') = pop size q in r ∷ run q' ops
