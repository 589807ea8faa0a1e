-- ===== src/Bag/Calls.antt =====
-- The calls of the threads of an `SBag`, one after the other, from a new bag on.
pub mod Fresh
pub mod Adding
pub mod Returning
use temp_data_structure_benc.Prelude.{ℕ, ◌≤◌, ◌<◌, ◌≡◌, Bool, Option, some, Array, update}
use temp_data_structure_benc.Bag.State.{Link, Tls, Bag, new, init_thread}
use temp_data_structure_benc.Bag.Blocks.{add}
use temp_data_structure_benc.Bag.Remove.{Outcome, try_remove_any}

-- The states of a bag and its threads that sequences of calls lead to.
pub data Reached (size threads : ℕ) : Bag → Array Tls → Type 0 where
  start :
      (sentinel : ℕ) (next : Array Link) (items notify : Array (Array ℕ))
      → (garbage : Array Bool)
      → Reached size threads
          (new sentinel next items notify)
          (λ i. init_thread size (new sentinel next items notify) i (garbage i))
  added :
      {b b' : Bag} {tls : Array Tls} {t' : Tls} (i fuel item : ℕ)
      → i < threads
      → add size fuel b (tls i) item ≡ some (b', t')
      → Reached size threads b tls
      → Reached size threads b' (update tls i t')
  removed :
      {b b' : Bag} {tls : Array Tls} {t' : Tls} (i fuel item : ℕ)
      → i < threads
      → try_remove_any size threads fuel b (tls i) ≡ Outcome.removed item b' t'
      → Reached size threads b tls
      → Reached size threads b' (update tls i t')
  found_none :
      {b b' : Bag} {tls : Array Tls} {t' : Tls} (i fuel : ℕ)
      → i < threads
      → try_remove_any size threads fuel b (tls i) ≡ Outcome.empty b' t'
      → Reached size threads b tls
      → Reached size threads b' (update tls i t')
