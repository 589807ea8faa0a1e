-- ===== src/Queue/FastForward/Interleave.antt =====
-- What every interleaving of one producer and one consumer of a FastForward queue keeps.
use temp_data_structure_benc.Prelude.{ℕ, ◌+◌, ◌^◌, ◌<◌, ◌≤◌, ◌≡◌, List, ◌++◌, length}
use temp_data_structure_benc.Queue.FastForward.Cells.{Cells}
use temp_data_structure_benc.Queue.FastForward.Threads.{System, Reach}
use temp_data_structure_benc.Queue.FastForward.Invariant.{Reach-Inv}

module _ {size : ℕ} where
  -- In every reachable state the items put into the cells are, in order, those taken out followed
  -- by at most `Size + 1` items that are still there, however the two threads interleave, if no
  -- client enqueues the sentinel.
  pub items_in_order :
      {sentinel : ℕ} {s : System}
      → size + 1 < 2 ^ 32
      → Reach size sentinel s
      → (items : List ℕ) × (s.pushed ≡ s.popped ++ items) × (length items ≤ size + 1)
  items_in_order h r = let (items, v) = Reach-Inv h r in (items, v.history, v.cells.fits)
