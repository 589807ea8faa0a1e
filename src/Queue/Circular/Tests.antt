-- ===== src/Queue/Circular/Tests.antt =====
-- `CircularFifo` on concrete inputs.
use temp_data_structure_benc.Prelude.{
  ℕ, ◌≡◌, ◌≤◌, refl, true, false, none, some, List, [], ◌∷◌, ◌++◌, Array, arith, length, update,
}
use temp_data_structure_benc.Fifo.{Op, put, get}
use temp_data_structure_benc.Queue.Circular.{CircularFifo, new, run, push, pop}
use temp_data_structure_benc.Queue.Circular.Refine.{IsValid, contents}
use temp_data_structure_benc.Queue.Circular.Threads.{
  System, Reach, Step, here, next, begin_push, push_room, write_item, end_push, begin_pop,
  read_item, end_pop,
}
use temp_data_structure_benc.Queue.Circular.Interleave.{Linear, linearizable, fifo_order}

abbrev zeros : Array ℕ
zeros _ = 0

-- The third `push` meets a full queue of `Size` 2.
abbrev calls : List (Op ℕ)
calls = put 5 ∷ put 6 ∷ put 7 ∷ get ∷ put 8 ∷ get ∷ get ∷ get ∷ []

calls_replies :
    run 2 (new zeros) calls
    ≡ (true, none)
      ∷ (true, none)
      ∷ (false, none)
      ∷ (true, some 5)
      ∷ (true, none)
      ∷ (true, some 6)
      ∷ (true, some 8)
      ∷ (false, none)
      ∷ []
unfolding run push pop
calls_replies = refl

-- 9 at index 2, then 4 at index 0
abbrev wrapped : CircularFifo ℕ
wrapped = record { tail = 1; array = update (update zeros 2 9) 0 4; head = 2 }

wrapped-IsValid : IsValid 2 wrapped
wrapped-IsValid = omega arith

-- The consumer has read an item while the producer is about to publish the next.
abbrev overlapped : (s : System ℕ) × Reach 2 zeros s
overlapped = (
  _,
  next
      (next
        (next
          (next
            (next
              (next
                (next (next (next here (begin_push 7 refl)) (push_room 7 1 refl (omega arith)))
                  (write_item 7 1 refl))
                (end_push 7 1 refl))
              (begin_push 8 refl))
            (begin_pop refl (omega arith)))
          (push_room 8 2 refl (omega arith)))
        (read_item refl))
      (write_item 8 2 refl),
)

overlapped_state :
    (overlapped.0.pushed ≡ 7 ∷ []) × (overlapped.0.popped ≡ []) × (overlapped.0.fifo.array 1 ≡ 8)
overlapped_state = (refl, refl, refl)

fifo_order_example :
    (overlapped.0.pushed ≡ overlapped.0.popped ++ contents 2 overlapped.0.fifo)
    × (length (contents 2 overlapped.0.fifo) ≤ 2)
fifo_order_example = fifo_order {size = 2} (omega arith) overlapped.1

abbrev last_step : (t : System ℕ) × Step 2 overlapped.0 t
last_step = (_, end_pop 7 refl)

linearizable_example : Linear last_step.1
linearizable_example = linearizable {size = 2} (omega arith) overlapped.1 last_step.1
