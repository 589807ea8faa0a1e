-- ===== src/Queue/Mpmc/Exchange.antt =====
-- The bounded queue in every interleaving.
use temp_data_structure_benc.Prelude.{
  ℕ, suc, ◌+◌, ◌≡◌, ◌≢◌, ◌<◌, ◌≤◌, ◌%◌, ◌^◌, ◌⊎◌, inl, inr, refl, sym, ap, ◌∙◌, some, Array, arith,
}
use temp_data_structure_benc.Prelude.Mask.{bit_and-mask, mod_unique}
use native.Mathlib.Nat.{mod-lt, mod-eq_of_lt}
use temp_data_structure_benc.Queue.Mpmc.{
  Worker, System, start, cell, difference, Step, begin_enqueue, load_enqueue, enqueue_ready,
  enqueue_full, enqueue_late, enqueue_wins, enqueue_loses, write_value, publish, begin_dequeue,
  load_dequeue, dequeue_ready, dequeue_empty, dequeue_late, dequeue_wins, dequeue_loses, read_value,
  clean_value, recycle, Reach, here, next, steps,
}
use temp_data_structure_benc.Queue.Mpmc.Turns.{Phase, CellIs, Inv}
use temp_data_structure_benc.Queue.Mpmc.Work.{pass-Inv}
use temp_data_structure_benc.Queue.Mpmc.Claims.{
  there, write-Inv, publish-Inv, read-Inv, clean-Inv, recycle-Inv,
}
use temp_data_structure_benc.Queue.Mpmc.Wins.{enqueue_wins-Inv, dequeue_wins-Inv}

pub cell-mod : (k pos : ℕ) → cell k pos ≡ pos % 2 ^ k
unfolding cell
cell-mod k pos = bit_and-mask pos k

start-Inv : {A : Type 0} (c : ℕ) (garbage : Array A) → Inv c 0 (start garbage)
start-Inv c garbage = record {
  turn = λ i. i;
  phase = λ _. Phase.free;
  cells = λ i lt. (refl, omega arith);
  own = λ i lt. mod-eq_of_lt lt;
  in_round = λ i lt. omega (arith, lt);
  not_behind = λ i lt. omega arith;
  threads = λ t. tt;
  order = omega arith;
  small = omega arith;
  exchanged = λ p x e. ground (arith, e);
}

-- The sequence number that a cell can have: its position, or one more for a claimed one.
sequence-cases :
    {A : Type 0} (s : System A) (i p : ℕ) (h : Phase)
    → CellIs s i p h
    → s.queue.pos_dequeue ≤ s.queue.pos_enqueue
    → (s.queue.sequence i ≡ p) ⊎ ((s.queue.sequence i ≡ p + 1) × (p < s.queue.pos_enqueue))
sequence-cases s i p Phase.free k o = inl k.0
sequence-cases s i p (Phase.writing t) k o = inl k.0
sequence-cases s i p Phase.full k o = inr (k.0, k.2)
sequence-cases s i p (Phase.reading t) k o = inr (k.0, omega (arith, k.1))

module _ {A : Type 0} {c n : ℕ} {s : System A} (v : Inv c n s) (two : 2 ≤ c) (fits : n + c < 2 ^ 63)
    (pos : ℕ) where
  below : pos % c < c
  below = mod-lt pos (omega arith)

  pub sequence-at :
      (s.queue.sequence (pos % c) ≡ v.turn (pos % c))
      ⊎ ((s.queue.sequence (pos % c) ≡ v.turn (pos % c) + 1)
          × (v.turn (pos % c) < s.queue.pos_enqueue))
  sequence-at =
      sequence-cases s (pos % c) (v.turn (pos % c)) (v.phase (pos % c)) (v.cells (pos % c) below)
        v.order

  -- A cell does not serve the position before its own.
  turn-ne : v.turn (pos % c) + 1 ≢ pos
  turn-ne e = absurd (
      omega (
        arith,
        mod_unique c (v.turn (pos % c)) pos (v.own (pos % c) below) (omega arith) (omega arith),
      ))

  enqueue_ready-turn :
      pos ≤ s.queue.pos_enqueue
      → difference (s.queue.sequence (pos % c)) pos ≡ 0
      → pos ≤ v.turn (pos % c)
  enqueue_ready-turn h d =
      omega (arith, sequence-at, turn-ne, v.in_round (pos % c) below, v.order, v.small)

  dequeue_ready-turn :
      pos ≤ s.queue.pos_dequeue
      → difference (s.queue.sequence (pos % c)) ((pos + 1) % 2 ^ 64) ≡ 0
      → (pos < v.turn (pos % c))
        ⊎ ((v.turn (pos % c) ≡ pos) × (s.queue.sequence (pos % c) ≡ pos + 1))
  dequeue_ready-turn h d = ground (arith, sequence-at, v.in_round (pos % c) below, v.order, v.small)

module _ {A : Type 0} {k n : ℕ} {s : System A} (v : Inv (2 ^ k) n s) (two : 2 ≤ 2 ^ k)
    (fits : n + 2 ^ k < 2 ^ 63) (cleaner : A → A) (tid : ℕ) where
  Step-Inv : {t : System A} → Step k cleaner s tid t → Inv (2 ^ k) (suc n) t
  Step-Inv (begin_enqueue item e) = pass-Inv v tid (Worker.load_enqueue item) (λ i. rw e tt) tt
  Step-Inv (load_enqueue item e) =
      pass-Inv v tid (Worker.test_enqueue item s.queue.pos_enqueue) (λ i. rw e tt) (omega arith)
  Step-Inv (enqueue_ready item pos e d) =
      pass-Inv v tid (Worker.cas_enqueue item pos) (λ i. rw e tt)
        (
          (there v tid two fits (Worker.test_enqueue item pos) e),
          enqueue_ready-turn v two fits pos (there v tid two fits (Worker.test_enqueue item pos) e)
              (ap (λ i. difference (s.queue.sequence i) pos) (sym (cell-mod k pos)) ∙ d),
        )
  Step-Inv (enqueue_full item pos e d) = pass-Inv v tid Worker.idle (λ i. rw e tt) tt
  Step-Inv (enqueue_late item pos e d d') =
      pass-Inv v tid (Worker.load_enqueue item) (λ i. rw e tt) tt
  Step-Inv (enqueue_wins item pos e won) = enqueue_wins-Inv v tid two fits item pos e won
  Step-Inv (enqueue_loses item pos e lost) =
      pass-Inv v tid (Worker.test_enqueue item pos) (λ i. rw e tt)
        (there v tid two fits (Worker.cas_enqueue item pos) e).0
  Step-Inv (write_value item pos e) = rw (cell-mod k pos) (write-Inv v tid two fits item pos e)
  Step-Inv (publish pos e) = rw (cell-mod k pos) (publish-Inv v tid two fits pos e)
  Step-Inv (begin_dequeue e) = pass-Inv v tid Worker.load_dequeue (λ i. rw e tt) tt
  Step-Inv (load_dequeue e) =
      pass-Inv v tid (Worker.test_dequeue s.queue.pos_dequeue) (λ i. rw e tt) (omega arith)
  Step-Inv (dequeue_ready pos e d) =
      pass-Inv v tid (Worker.cas_dequeue pos) (λ i. rw e tt)
        (
          (there v tid two fits (Worker.test_dequeue pos) e),
          dequeue_ready-turn v two fits pos (there v tid two fits (Worker.test_dequeue pos) e) (
              ap (λ i. difference (s.queue.sequence i) ((pos + 1) % 2 ^ 64)) (sym (cell-mod k pos))
              ∙ d),
        )
  Step-Inv (dequeue_empty pos e d) = pass-Inv v tid Worker.idle (λ i. rw e tt) tt
  Step-Inv (dequeue_late pos e d d') = pass-Inv v tid Worker.load_dequeue (λ i. rw e tt) tt
  Step-Inv (dequeue_wins pos e won) = dequeue_wins-Inv v tid two fits pos e won
  Step-Inv (dequeue_loses pos e lost) =
      pass-Inv v tid (Worker.test_dequeue pos) (λ i. rw e tt)
        (there v tid two fits (Worker.cas_dequeue pos) e).0
  Step-Inv (read_value pos e) = rw (cell-mod k pos) (read-Inv v tid two fits pos e)
  Step-Inv (clean_value pos e) = rw (cell-mod k pos) (clean-Inv v tid two fits cleaner pos e)
  Step-Inv (recycle pos e) = rw (cell-mod k pos) (recycle-Inv v tid two fits pos e)

module _ {A : Type 0} {k : ℕ} (cleaner : A → A) {garbage : Array A} (two : 2 ≤ 2 ^ k) where
  pub Reach-Inv :
      {s : System A} (r : Reach k cleaner garbage s)
      → steps k cleaner r + 2 ^ k < 2 ^ 63
      → Inv (2 ^ k) (steps k cleaner r) s
  unfolding steps
  Reach-Inv here h = start-Inv (2 ^ k) garbage
  Reach-Inv (next tid r st) h =
      Step-Inv (Reach-Inv r (omega arith)) two (omega arith) cleaner tid st

  -- In every state that fewer than 2 ^ 63 accesses, less the capacity, lead to: an item that a
  -- `dequeue` has read at a position is the one that an `enqueue` has claimed that position for, and
  -- the position lies below those yet to be removed, which are not ahead of those yet to be filled.
  -- This holds however many threads there are and however they interleave.
  pub got-sent :
      {s : System A} (r : Reach k cleaner garbage s)
      → steps k cleaner r + 2 ^ k < 2 ^ 63
      → (p : ℕ) (x : A) → s.got p ≡ some x
      → (p < s.queue.pos_dequeue)
        × (s.queue.pos_dequeue ≤ s.queue.pos_enqueue)
        × (s.sent p ≡ some x)
  got-sent r h p x g =
      let v = Reach-Inv r h in let (before, same) = v.exchanged p x g in (before, v.order, same)
