-- ===== src/Stack/Treiber/Tests.antt =====
-- A push, and a pop of another thread.
use temp_data_structure_benc.Prelude.{ℕ, ◌≡◌, refl, List, map, arith}
use temp_data_structure_benc.Queue.TwoLock.Chain.{Chain}
use temp_data_structure_benc.Stack.Treiber.{
  Worker, System, Step, begin_push, push_load, push_set, push_true, begin_pop, pop_load,
  pop_guarded, pop_same, load_next, pop_true, Reach, here, next,
}
use temp_data_structure_benc.Stack.Treiber.Steps.{Effect, Does}
use temp_data_structure_benc.Stack.Treiber.Lifo.{stack_refines, IsSafe, Touch, nodes_live}

-- The item 7 in the node 3.
abbrev one_item : (s : System) × Reach s
one_item = (
  _,
  next 0
      (next 0 (next 0 (next 0 here (begin_push 3 7 refl (omega arith) refl)) (push_load 3 refl))
        (push_set 3 0 refl))
      (push_true 3 0 refl refl),
)

-- The thread 1 has made sure of its guard.
abbrev guarded : (s : System) × Reach s
guarded = (
  _,
  next 1
      (next 1 (next 1 (next 1 one_item.1 (begin_pop refl)) (pop_load refl (omega arith)))
        (pop_guarded 3 refl))
      (pop_same 3 refl refl),
)

abbrev loaded : (s : System) × Reach s
loaded = (_, next 1 guarded.1 (load_next 3 refl))

abbrev take : (t : System) × Step loaded.0 1 t
take = (_, pop_true 3 0 refl refl)

stack_refines_example :
    (ns : List ℕ) × (ns' : List ℕ) × Chain loaded.0.next 0 ns
    × Chain take.0.next 0 ns'
    × Does (Effect.popped 7) (map loaded.0.value ns) (map take.0.value ns')
    × ((u n : ℕ) → loaded.0.worker u ≡ Worker.taken n → take.0.value n ≡ loaded.0.value n)
stack_refines_example = stack_refines loaded.1 take.1

nodes_live_example : (ns : List ℕ) × Chain guarded.0.next 0 ns × IsSafe guarded.0 ns (Touch.uses 3)
nodes_live_example = nodes_live {tid = 1} guarded.1 (load_next 3 refl)
