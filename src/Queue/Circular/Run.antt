-- ===== src/Queue/Circular/Run.antt =====
-- A whole sequence of calls on a `CircularFifo`.
use temp_data_structure_benc.Prelude.{ℕ, ◌+◌, ◌^◌, ◌<◌, ◌≡◌, refl, List, [], ◌∷◌, Array, ap, ◌∙◌}
use temp_data_structure_benc.Fifo
use temp_data_structure_benc.Fifo.{Op, put, get}
use temp_data_structure_benc.Queue.Circular.{CircularFifo, new, run}
use temp_data_structure_benc.Queue.Circular.Refine.{
  IsValid, contents, push-IsValid, pop-IsValid, push_refines, pop_refines, new-IsValid,
  contents-none,
}

run_refines :
    {A : Type 0} (size : ℕ) (ops : List (Op A)) {q : CircularFifo A}
    → IsValid size q
    → run size q ops ≡ Fifo.run size (contents size q) ops
unfolding run Fifo.run
run_refines size [] v = refl
run_refines size (put x ∷ ops) v = rw (run_refines size ops (push-IsValid v x), ← push_refines v x)
run_refines size (get ∷ ops) v = rw (run_refines size ops (pop-IsValid v), ← pop_refines v)

-- The replies of a new `CircularFifo` to any sequence of calls are those of an empty queue of
-- capacity `Size`, if `Size + 1` does not wrap.
pub run-new :
    {A : Type 0} (size : ℕ) (garbage : Array A) (ops : List (Op A))
    → size + 1 < 2 ^ 32
    → run size (new garbage) ops ≡ Fifo.run size [] ops
run-new size garbage ops h =
    let v = new-IsValid size garbage h in
    run_refines size ops v ∙ ap (λ q. Fifo.run size q ops) (contents-none v refl)
