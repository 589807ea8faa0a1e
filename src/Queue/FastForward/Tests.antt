-- ===== src/Queue/FastForward/Tests.antt =====
-- The FastForward queue on concrete inputs.
use temp_data_structure_benc.Prelude.{
  ℕ, ◌≡◌, ◌≤◌, refl, true, false, some, List, ◌++◌, arith, length,
}
use temp_data_structure_benc.Queue.FastForward.{new, enqueue, dequeue}
use temp_data_structure_benc.Queue.FastForward.Calls.{new-Holds, sentinel_stalls}
use temp_data_structure_benc.Queue.FastForward.Threads.{
  System, Reach, here, next, begin_enqueue, find_room, fill, move_head, find_item, take, move_tail,
}
use temp_data_structure_benc.Queue.FastForward.Interleave.{items_in_order}

-- `Size` 1: two cells, and both can be filled.
two_items :
    let q = (enqueue 1 (new 0) 5).1 in
    let q' = (enqueue 1 q 6).1 in ((enqueue 1 q' 7).0 ≡ false) × ((dequeue 1 q').0 ≡ (true, some 5))
unfolding enqueue dequeue
two_items = (refl, refl)

sentinel_stalls_example :
    let q = (enqueue 1 (new 0) 0).1 in
    let q' = (enqueue 1 q 5).1 in
    ((enqueue 1 (new 0) 0).0 ≡ true)
    × ((enqueue 1 q 5).0 ≡ true)
    × (dequeue 1 q' ≡ ((false, some 0), q'))
sentinel_stalls_example = sentinel_stalls {size = 1} 5 (new-Holds 1 0 (omega arith)) (omega arith)

-- The producer has filled both cells and tests a third time.
abbrev full : (s : System) × Reach 1 0 s
full = (
  _,
  next
      (next
        (next
          (next
            (next
              (next
                (next
                  (next (next here (begin_enqueue 5 refl (omega arith))) (find_room 5 refl refl))
                  (fill 5 refl))
                (move_head refl))
              (begin_enqueue 6 refl (omega arith)))
            (find_room 6 refl refl))
          (fill 6 refl))
        (move_head refl))
      (begin_enqueue 7 refl (omega arith)),
)

items_in_order_example :
    (items : List ℕ) × (full.0.pushed ≡ full.0.popped ++ items) × (length items ≤ 2)
items_in_order_example = items_in_order {size = 1} (omega arith) full.1

-- One item went through.
abbrev drained : (s : System) × Reach 1 0 s
drained = (
  _,
  next
      (next
        (next
          (next (next (next here (begin_enqueue 5 refl (omega arith))) (find_room 5 refl refl))
            (fill 5 refl))
          (find_item refl (omega arith)))
        (take 5 refl))
      (move_tail refl),
)
