-- ===== src/Queue/Mpmc/Work.antt =====
-- One step of the bounded queue keeps its invariant, if the cell that it is at does.
use temp_data_structure_benc.Prelude.{
  ℕ, suc, ◌+◌, ◌≡◌, ◌≢◌, ◌<◌, ◌≤◌, ◌%◌, ◌⊎◌, refl, sym, ◌∙◌, some, update, update_self, update_ne,
  arith,
}
use mathlib.Core.Path.{subst}
use native.Mathlib.Decide.{ℕ_discrete}
use native.Mathlib.Nat.{add-mod_right}
use temp_data_structure_benc.Queue.Mpmc.{Worker, System, at}
use temp_data_structure_benc.Queue.Mpmc.Turns.{Phase, CellIs, ThreadIs, Elsewhere, Inv}
use temp_data_structure_benc.Queue.Mpmc.Moves.{Frame, Frame-CellIs, Frame-ThreadIs}

module _ {A : Type 0} {c n : ℕ} {s : System A} (v : Inv c n s) (tid : ℕ) where
  -- A step of a thread that is at work at no cell, and goes to no cell.
  pub pass-Inv :
      (w : Worker A)
      → ((i : ℕ) → Elsewhere c i (s.worker tid))
      → ThreadIs c s.queue v.turn v.phase tid w
      → Inv c (suc n) (at s tid w)
  pass-Inv w away there = record {
    turn = v.turn;
    phase = v.phase;
    cells = λ i lt.
        Frame-CellIs (frame i) i (v.turn i) (v.phase i) v.order (omega arith) (v.own i lt)
          (v.cells i lt);
    own = v.own;
    in_round = v.in_round;
    not_behind = v.not_behind;
    threads = λ t. elim (ℕ_discrete tid t) [
      | yes e ↦
          subst (λ u. ThreadIs c s.queue v.turn v.phase u (update s.worker tid w u)) e
            (rw (update_self s.worker tid w) there)
      | no ne ↦ rw (update_ne s.worker w ne) (v.threads t)
    ];
    order = v.order;
    small = omega (arith, v.small);
    exchanged = v.exchanged;
  }
    where
      frame : (i : ℕ) → Frame c s (at s tid w) tid (suc i)
      frame i = record {
        elsewhere = λ k _. away k;
        sequence = λ k _. refl;
        value = λ k _. refl;
        worker = λ t ne. update_ne s.worker w (λ e. ne (sym e));
        enqueue = λ p _ h. h;
        enqueue_up = omega arith;
        dequeue = λ p _ h. h;
        dequeue_up = omega arith;
        sent = λ p _. refl;
      }

-- A step at the cell `j`, which comes to serve the position `p` in the phase `h`.
pub record Work {A : Type 0} {c n : ℕ} {s : System A} (v : Inv c n s) (s' : System A) (tid j p : ℕ)
    (h : Phase) : Type 0 where
  pub frame : Frame c s s' tid j
  pub below : j < c
  pub cell : CellIs s' j p h
  pub own : p % c ≡ j
  pub in_round : p < s'.queue.pos_dequeue + c
  pub not_behind : s'.queue.pos_enqueue ≤ p + c
  pub up : v.turn j ≤ p
  pub not_writing : (t : ℕ) → t ≢ tid → v.phase j ≢ Phase.writing t
  pub not_reading : (t : ℕ) → t ≢ tid → v.phase j ≢ Phase.reading t
  pub filled :
      (pos : ℕ)
      → v.turn j ≡ pos
      → s.queue.sequence j ≡ pos + 1
      → (pos < p) ⊎ ((p ≡ pos) × (s'.queue.sequence j ≡ pos + 1))
  pub thread : ThreadIs c s'.queue (update v.turn j p) (update v.phase j h) tid (s'.worker tid)
  pub order : s'.queue.pos_dequeue ≤ s'.queue.pos_enqueue
  pub small : s'.queue.pos_enqueue ≤ suc n
  pub exchanged :
      (q : ℕ) (x : A) → s'.got q ≡ some x → (q < s'.queue.pos_dequeue) × (s'.sent q ≡ some x)

module _ {A : Type 0} {c n : ℕ} {s s' : System A} {v : Inv c n s} {tid j p : ℕ} {h : Phase}
    (w : Work v s' tid j p h) where
  pub Work-Inv : Inv c (suc n) s'
  Work-Inv = record {
    turn = update v.turn j p;
    phase = update v.phase j h;
    cells = λ i lt. elim (ℕ_discrete j i) [
      | yes e ↦
          subst (λ u. CellIs s' u (update v.turn j p u) (update v.phase j h u)) e
            (rw (update_self v.turn j p, update_self v.phase j h) w.cell)
      | no ne ↦
          rw (update_ne v.turn p ne, update_ne v.phase h ne)
            (Frame-CellIs w.frame i (v.turn i) (v.phase i) v.order (λ e. ne (sym e)) (v.own i lt)
              (v.cells i lt))
    ];
    own = λ i lt. elim (ℕ_discrete j i) [
      | yes e ↦ subst (λ u. update v.turn j p u % c ≡ u) e (rw (update_self v.turn j p) w.own)
      | no ne ↦ rw (update_ne v.turn p ne) (v.own i lt)
    ];
    in_round = λ i lt. elim (ℕ_discrete j i) [
      | yes e ↦
          subst (λ u. update v.turn j p u < s'.queue.pos_dequeue + c) e
            (rw (update_self v.turn j p) w.in_round)
      | no ne ↦ rw (update_ne v.turn p ne) (omega (arith, v.in_round i lt, w.frame.dequeue_up))
    ];
    not_behind = λ i lt. elim (ℕ_discrete j i) [
      | yes e ↦
          subst (λ u. s'.queue.pos_enqueue ≤ update v.turn j p u + c) e
            (rw (update_self v.turn j p) w.not_behind)
      | no ne ↦ rw (update_ne v.turn p ne) (
          w.frame.enqueue (v.turn i + c) (λ e. ne (sym e ∙ add-mod_right (v.turn i) c ∙ v.own i lt))
            (v.not_behind i lt))
    ];
    threads = λ t. elim (ℕ_discrete t tid) [
      | yes e ↦
          subst (λ u. ThreadIs c s'.queue (update v.turn j p) (update v.phase j h) u (s'.worker u))
            (sym e) w.thread
      | no ne ↦ rw (w.frame.worker t ne) (
          Frame-ThreadIs w.frame v.turn v.phase p h t w.up (w.not_writing t ne) (w.not_reading t ne)
            w.filled (s.worker t) (v.threads t))
    ];
    order = w.order;
    small = w.small;
    exchanged = w.exchanged;
  }
