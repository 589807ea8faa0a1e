-- ===== src/Queue/TwoLock/Tests.antt =====
-- `RWQueue` on concrete inputs.
use temp_data_structure_benc.Prelude.{ℕ, ◌≡◌, refl, some, List, [], ◌∷◌, Array, arith, length}
use temp_data_structure_benc.Fifo
use temp_data_structure_benc.Fifo.{Op, Reply, put, get}
use temp_data_structure_benc.Queue.TwoLock.{
  RwQueue, new, enqueue, dequeue, size, clear, begin_node, end_node, iterate, Runs, done, put_next,
  get_next,
}
use temp_data_structure_benc.Queue.TwoLock.Calls.{
  IsValid, contents, new-IsValid, enqueue-IsValid, Runs-new,
}
use temp_data_structure_benc.Queue.TwoLock.Reclaim.{IsCleared, but_last, clear_lem, iterate_lem}

abbrev zeros : Array ℕ
zeros _ = 0

abbrev fresh : RwQueue ℕ
fresh = new zeros zeros 1

fresh-IsValid : IsValid fresh []
fresh-IsValid = new-IsValid zeros zeros 1 (omega arith)

-- The nodes 3 and 2 behind the dummy node 1.
abbrev one : RwQueue ℕ
one = enqueue fresh 3 7

abbrev two : RwQueue ℕ
two = enqueue one 2 8

one-IsValid : IsValid one (3 ∷ [])
one-IsValid = enqueue-IsValid fresh-IsValid 3 7 (omega arith) refl

two-IsValid : IsValid two (3 ∷ 2 ∷ [])
unfolding enqueue
two-IsValid = enqueue-IsValid one-IsValid 2 8 (omega arith) refl

-- The address 1 comes back once the first dummy node is freed.
abbrev reused :
    (replies : List (Reply ℕ)) × Runs fresh (put 7 ∷ get ∷ put 8 ∷ get ∷ get ∷ []) replies
unfolding enqueue dequeue
reused = (
  _,
  put_next 3 7 (omega arith) refl
      (get_next (put_next 1 8 (omega arith) refl (get_next (get_next done)))),
)

Runs-new_example : reused.0 ≡ Fifo.run_unbounded [] (put 7 ∷ get ∷ put 8 ∷ get ∷ get ∷ [])
Runs-new_example = Runs-new zeros zeros (omega arith) reused.1

clear_lem_example :
    (q' : RwQueue ℕ) × (clear 3 two ≡ some (length (contents two (3 ∷ 2 ∷ [])), q'))
    × IsCleared two q'
    × (size q' ≡ size two)
clear_lem_example = clear_lem 3 (3 ∷ 2 ∷ []) two-IsValid (omega arith)

iterate_lem_example :
    iterate 2 two (begin_node two) (end_node 2 two two.tail) ≡ but_last (contents two (3 ∷ 2 ∷ []))
iterate_lem_example = iterate_lem 2 (3 ∷ 2 ∷ []) two-IsValid (omega arith)
