-- ===== src/Bag/Tests.antt =====
-- `SBag` on concrete inputs: two threads, blocks of two slots.
use temp_data_structure_benc.Prelude.{
  ℕ, ◌≡◌, ◌≤◌, refl, true, false, none, Option, Array, inl, some, arith, update,
}
use temp_data_structure_benc.Bag.State.{Tls, Bag, plain, new, init_thread}
use temp_data_structure_benc.Bag.Blocks.{add, add_loop, new_block, notify_all}
use temp_data_structure_benc.Bag.Blocks.Add.{Puts, add-Puts, add_diverges}
use temp_data_structure_benc.Bag.Remove.{
  Outcome, try_remove_any, remove_own, steal_rounds, retry, try_steal_block, steal_from,
  first_taken,
}
use temp_data_structure_benc.Bag.Remove.Returns.{Gives, add-Gives}
use temp_data_structure_benc.Bag.Remove.Effects.{Effect}
use temp_data_structure_benc.Bag.Remove.Takes.{try_remove_any-Effect}
use temp_data_structure_benc.Bag.Calls.{Reached}
use temp_data_structure_benc.Bag.Calls.Returning.{Answer, Reached-Answer}

-- The sentinel is 99.
abbrev fresh : Bag
fresh = new 99 (λ _. plain 0) (λ _. λ _. 0) (λ _. λ _. 0)

abbrev first : Tls
first = init_thread 2 fresh 0 false

abbrev second : Tls
second = init_thread 2 fresh 1 true

-- The bag after thread 0 has added 7, and that thread's data.
abbrev added : Bag × Tls
added = (
  record {
    heads = update (λ _. 0) 0 1;
    next = update (update (λ _. plain 0) 1 (plain 0)) 1 (plain 0);
    items =
        update (update (λ _. λ _. 0) 1 (λ _. 99)) 1
          (update (update (λ _. λ _. 0) 1 (λ _. 99) 1) 0 7);
    notify = update (update (λ _. λ _. 0) 1 (λ _. 0)) 1 (λ _. 0);
    used = 1;
    sentinel = 99;
  },
  record first { thread_block = 1; thread_head = 1 },
)

item_in_block : add 2 4 fresh first 7 ≡ some added
unfolding add add_loop new_block notify_all
item_in_block = refl

add-Puts_example : Puts 2 fresh first 7 (add 2 4 fresh first 7)
add-Puts_example = add-Puts 2 4 fresh first 7 (omega arith) (omega arith) (inl refl) (omega arith)

add-Gives_example : Gives 2 2 9 7 (add 2 4 fresh first 7)
add-Gives_example =
    add-Gives 2 2 8 4 fresh first 7 (omega arith) (omega arith) (inl refl) (omega arith)
      (omega arith)

-- The item a call hands out.
taken : Outcome → Option ℕ
taken (Outcome.removed item b t) = some item
taken (Outcome.empty b t) = none
taken (Outcome.null_deref b t) = none
taken (Outcome.unfinished b t) = none

-- Thread 0 finds its own item, and so does thread 1, which has no block.
own_item : taken (try_remove_any 2 2 9 added.0 added.1) ≡ some 7
unfolding taken try_remove_any remove_own
own_item = refl

stolen_item : taken (try_remove_any 2 2 9 added.0 second) ≡ some 7
unfolding taken try_remove_any remove_own steal_rounds retry try_steal_block steal_from first_taken
stolen_item = refl

try_remove_any-Effect_example : Effect 2 added.0 (try_remove_any 2 2 9 added.0 second)
try_remove_any-Effect_example = try_remove_any-Effect 2 2 9 added.0 second (record {
  linked = record { heads = λ i. ground arith; links = λ n nz le. ground arith };
  thread_block = omega arith;
  thread_head = omega arith;
  steal_block = omega arith;
  steal_head = omega arith;
})

-- A block of no slots: `thread_head` starts at 0.
add_diverges_example : add 0 5 fresh (init_thread 0 fresh 0 false) 7 ≡ none
add_diverges_example = add_diverges 5 fresh (init_thread 0 fresh 0 false) 7 refl

-- Thread 0 has added 7 to the new bag; thread 1 calls `tryRemoveAny`.
abbrev threads_after : Array Tls
threads_after = update (λ i. init_thread 2 fresh i false) 0 added.1

Reached-Answer_example :
    (o : Outcome) × Answer 2 added.0 o
    × (n : ℕ) × ((fuel : ℕ) → n ≤ fuel → try_remove_any 2 2 fuel added.0 (threads_after 1) ≡ o)
Reached-Answer_example =
    Reached-Answer 2 2 (omega arith)
      (Reached.added 0 4 7 (omega arith) item_in_block
        (Reached.start 99 (λ _. plain 0) (λ _. λ _. 0) (λ _. λ _. 0) (λ _. false)))
      1 (omega arith)
