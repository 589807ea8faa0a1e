-- ===== src/Bag/Remove/Ending.antt =====
-- The two `do` loops of `tryRemoveAny` return.
use temp_data_structure_benc.Prelude.{
  ℕ, zero, suc, ◌+◌, ◌-◌, ◌%◌, ◌≤◌, ◌<◌, inl, refl, List, Array, arith, length,
}
use native.Mathlib.Decide.{ℕ_discrete}
use temp_data_structure_benc.Bag.State.{Tls, Bag}
use temp_data_structure_benc.Bag.Remove.{Outcome, steal_rounds, try_steal_block}
use temp_data_structure_benc.Bag.Remove.Ready.{Ready, Mine}
use temp_data_structure_benc.Bag.Remove.Scan.{Ends, at, retry_list}
use temp_data_structure_benc.Bag.Remove.Pass.{Rest, Goes-same}
use temp_data_structure_benc.Bag.Remove.Rounds.{IsAt, IsAt-step, go_lists, next_round}
use temp_data_structure_benc.Bag.Remove.Stale.{anywhere}
use temp_data_structure_benc.Bag.Remove.Unlink.{}

module _ (size threads : ℕ) (pos : 0 < size) where
  -- The end of the list that the first round begins in.
  first_end :
      (enough : ℕ) (t : Tls) (index : ℕ) (b : Bag) (ls : Array (List ℕ))
      → 2 ≤ enough
      → index < threads
      → Mine size b t
      → Rest size threads enough t 0 0 index b ls
  first_end enough t index b ls two lt own c ls' onto seen = elim (ℕ_discrete threads 1) [
    | yes e ↦
        next_round size threads enough t pos two threads 0 (omega arith) 0 ((index + 1) % threads) c
          ls' (omega arith) moved.0 onto.valid (onto.mine t own) (inl refl)
    | no ne ↦
        Goes-same size threads enough t
          (λ walk fuel le.
            retry_list threads (steal_rounds size threads walk fuel) size 0 0 c
              (at size threads enough t ((index + 1) % threads) 0 0 0) refl refl (omega arith))
          (go_lists size threads enough t pos two (threads - 2) 0 1 index ((index + 1) % threads) c
            ls' (omega arith) moved onto.valid (onto.mine t own) (inl (omega arith))
            (λ z. absurd (omega (arith, z)))
            (next_round size threads enough t pos two threads 0 (omega arith)) 0)
  ]
    where
      moved : IsAt threads index (0 + 1) ((index + 1) % threads)
      moved = IsAt-step threads index 0 index (lt, lt, inl (omega arith)) (omega arith)

  -- A call that returns for all fuel from some `n` on.
  abbrev pub GoesOn : ℕ → Bag → Array (List ℕ) → (ℕ → ℕ → Outcome) → Type 0
  GoesOn tid b ls f =
      (n : ℕ) × ((walk fuel : ℕ) → n ≤ walk → n ≤ fuel → Ends size threads tid b ls (f walk fuel))

  pub steals :
      (b : Bag) (ls : Array (List ℕ)) (t : Tls)
      → Ready size threads b ls t
      → GoesOn t.thread_id b ls (λ walk fuel. steal_rounds size threads walk walk 0 0 b t)
  unfolding steal_rounds try_steal_block
  steals b ls t r =
      let enough : ℕ = length (ls t.steal_index) + 2 in
      let (n, f) =
        anywhere size threads enough t pos (omega arith) t.steal_index r.place.0 b ls r.valid r.mine
          (omega arith) (first_end enough t t.steal_index b ls (omega arith) r.place.0 r.mine)
          t.steal_block t.steal_prev t.steal_head r.place in
      (
        suc n + enough,
        λ walk fuel le _. same walk (f walk walk (omega arith) (omega arith)) (omega arith),
      )
    where
      same :
          (walk : ℕ)
          → Ends size threads t.thread_id b ls (
              steal_rounds size threads walk walk 0 0 b
                (at size threads 0 t t.steal_index t.steal_block t.steal_prev t.steal_head))
          → 0 < walk
          → Ends size threads t.thread_id b ls (steal_rounds size threads walk walk 0 0 b t)
      same zero e le = absurd (omega arith)
      same (suc walk) e le = e
