-- ===== src/Queue/Mpmc/Moves.antt =====
-- What a step at one cell of the bounded queue leaves alone.
use temp_data_structure_benc.Prelude.{
  ℕ, ◌+◌, ◌≡◌, ◌≢◌, ◌<◌, ◌≤◌, ◌%◌, ◌⊎◌, inl, inr, sym, ap, ◌∙◌, Option, Array, update, update_self,
  update_ne, arith,
}
use mathlib.Core.Path.{subst}
use native.Mathlib.Decide.{ℕ_discrete}
use temp_data_structure_benc.Queue.Mpmc.{Worker, System}
use temp_data_structure_benc.Queue.Mpmc.Turns.{Phase, Writes, Reads, CellIs, ThreadIs, Elsewhere}

module _ {A : Type 0} (c i p : ℕ) (sent : Option A) (value : A) where
  Writes-Elsewhere : (w : Worker A) → Writes sent value p w → p % c ≡ i → Elsewhere c i w → ⊥
  Writes-Elsewhere (Worker.write_value item pos) h e f = f (ap (λ n. n % c) h.0 ∙ e)
  Writes-Elsewhere (Worker.publish pos) h e f = f (ap (λ n. n % c) h.0 ∙ e)
  Writes-Elsewhere Worker.idle h e f = h
  Writes-Elsewhere (Worker.load_enqueue item) h e f = h
  Writes-Elsewhere (Worker.test_enqueue item pos) h e f = h
  Writes-Elsewhere (Worker.cas_enqueue item pos) h e f = h
  Writes-Elsewhere Worker.load_dequeue h e f = h
  Writes-Elsewhere (Worker.test_dequeue pos) h e f = h
  Writes-Elsewhere (Worker.cas_dequeue pos) h e f = h
  Writes-Elsewhere (Worker.read_value pos) h e f = h
  Writes-Elsewhere (Worker.clean_value pos) h e f = h
  Writes-Elsewhere (Worker.recycle pos) h e f = h

  Reads-Elsewhere : (w : Worker A) → Reads sent value p w → p % c ≡ i → Elsewhere c i w → ⊥
  Reads-Elsewhere (Worker.read_value pos) h e f = f (ap (λ n. n % c) h.0 ∙ e)
  Reads-Elsewhere (Worker.clean_value pos) h e f = f (ap (λ n. n % c) h ∙ e)
  Reads-Elsewhere (Worker.recycle pos) h e f = f (ap (λ n. n % c) h ∙ e)
  Reads-Elsewhere Worker.idle h e f = h
  Reads-Elsewhere (Worker.load_enqueue item) h e f = h
  Reads-Elsewhere (Worker.test_enqueue item pos) h e f = h
  Reads-Elsewhere (Worker.cas_enqueue item pos) h e f = h
  Reads-Elsewhere (Worker.write_value item pos) h e f = h
  Reads-Elsewhere (Worker.publish pos) h e f = h
  Reads-Elsewhere Worker.load_dequeue h e f = h
  Reads-Elsewhere (Worker.test_dequeue pos) h e f = h
  Reads-Elsewhere (Worker.cas_dequeue pos) h e f = h

-- The frame of a step of the thread `tid` at the cell `j`.
pub record Frame {A : Type 0} (c : ℕ) (s s' : System A) (tid j : ℕ) : Type 0 where
  pub elsewhere : (i : ℕ) → i ≢ j → Elsewhere c i (s.worker tid)
  pub sequence : (i : ℕ) → i ≢ j → s'.queue.sequence i ≡ s.queue.sequence i
  pub value : (i : ℕ) → i ≢ j → s'.queue.value i ≡ s.queue.value i
  pub worker : (t : ℕ) → t ≢ tid → s'.worker t ≡ s.worker t
  pub enqueue : (p : ℕ) → p % c ≢ j → s.queue.pos_enqueue ≤ p → s'.queue.pos_enqueue ≤ p
  pub enqueue_up : s.queue.pos_enqueue ≤ s'.queue.pos_enqueue
  pub dequeue : (p : ℕ) → p % c ≢ j → s.queue.pos_dequeue ≤ p → s'.queue.pos_dequeue ≤ p
  pub dequeue_up : s.queue.pos_dequeue ≤ s'.queue.pos_dequeue
  pub sent : (p : ℕ) → p < s.queue.pos_enqueue → s'.sent p ≡ s.sent p

module _ {A : Type 0} {c : ℕ} {s s' : System A} {tid j : ℕ} (f : Frame c s s' tid j) where
  -- The other cells are as they were.
  pub Frame-CellIs :
      (i p : ℕ) (h : Phase)
      → s.queue.pos_dequeue ≤ s.queue.pos_enqueue
      → i ≢ j
      → p % c ≡ i
      → CellIs s i p h
      → CellIs s' i p h
  Frame-CellIs i p Phase.free order ne own h = (f.sequence i ne ∙ h.0, f.enqueue p (rw own ne) h.1)
  Frame-CellIs i p (Phase.writing t) order ne own h = elim (ℕ_discrete t tid) [
    | yes e ↦ absurd (
        Writes-Elsewhere c i p (s.sent p) (s.queue.value i) (s.worker t) h.3 own
          (rw e (f.elsewhere i ne)))
    | no other ↦ (
      f.sequence i ne ∙ h.0,
      f.dequeue p (rw own ne) h.1,
      omega (arith, h.2, f.enqueue_up),
      rw (f.sent p h.2, f.value i ne, f.worker t other) h.3,
    )
  ]
  Frame-CellIs i p Phase.full order ne own h = (
    f.sequence i ne ∙ h.0,
    f.dequeue p (rw own ne) h.1,
    omega (arith, h.2, f.enqueue_up),
    rw (f.sent p h.2, f.value i ne) h.3,
  )
  Frame-CellIs i p (Phase.reading t) order ne own h = elim (ℕ_discrete t tid) [
    | yes e ↦ absurd (
        Reads-Elsewhere c i p (s.sent p) (s.queue.value i) (s.worker t) h.2 own
          (rw e (f.elsewhere i ne)))
    | no other ↦ (
      f.sequence i ne ∙ h.0,
      omega (arith, h.1, f.dequeue_up),
      rw (f.sent p (omega (arith, h.1)), f.value i ne, f.worker t other) h.2,
    )
  ]

-- The other threads stand where they stood, when the turn of the cell `j` becomes `p` and its phase
-- `h`.
module _ {A : Type 0} {c : ℕ} {s s' : System A} {tid j : ℕ} (f : Frame c s s' tid j)
    (turn : Array ℕ) (phase : Array Phase) (p : ℕ) (h : Phase) (t : ℕ) (up : turn j ≤ p)
    (not_writing : phase j ≢ Phase.writing t) (not_reading : phase j ≢ Phase.reading t)
    (filled : (pos : ℕ)
      → turn j ≡ pos
      → s.queue.sequence j ≡ pos + 1
      → (pos < p) ⊎ ((p ≡ pos) × (s'.queue.sequence j ≡ pos + 1))) where
  -- what a turn and a phase at another cell keep
  keeps :
      (ph : Phase) (pos : ℕ)
      → phase j ≢ ph
      → (turn (pos % c) ≡ pos) × (phase (pos % c) ≡ ph)
      → (update turn j p (pos % c) ≡ pos) × (update phase j h (pos % c) ≡ ph)
  keeps ph pos ne k = elim (ℕ_discrete j (pos % c)) [
    | yes e ↦ absurd (ne (ap phase e ∙ k.1))
    | no other ↦ (update_ne turn p other ∙ k.0, update_ne phase h other ∙ k.1)
  ]

  at_cell :
      (pos : ℕ)
      → (pos < turn j) ⊎ ((turn j ≡ pos) × (s.queue.sequence j ≡ pos + 1))
      → (pos < p) ⊎ ((p ≡ pos) × (s'.queue.sequence j ≡ pos + 1))
  at_cell pos (inl before) = inl (omega (arith, up))
  at_cell pos (inr (e, e')) = filled pos e e'

  pub Frame-ThreadIs :
      (w : Worker A)
      → ThreadIs c s.queue turn phase t w
      → ThreadIs c s'.queue (update turn j p) (update phase j h) t w
  Frame-ThreadIs Worker.idle k = tt
  Frame-ThreadIs (Worker.load_enqueue item) k = tt
  Frame-ThreadIs (Worker.test_enqueue item pos) k = omega (arith, k, f.enqueue_up)
  Frame-ThreadIs (Worker.cas_enqueue item pos) k =
      (omega (arith, k.0, f.enqueue_up), ground (arith, k.1))
  Frame-ThreadIs (Worker.write_value item pos) k = keeps (Phase.writing t) pos not_writing k
  Frame-ThreadIs (Worker.publish pos) k = keeps (Phase.writing t) pos not_writing k
  Frame-ThreadIs Worker.load_dequeue k = tt
  Frame-ThreadIs (Worker.test_dequeue pos) k = omega (arith, k, f.dequeue_up)
  Frame-ThreadIs (Worker.cas_dequeue pos) k = (
    omega (arith, k.0, f.dequeue_up),
    elim (ℕ_discrete j (pos % c)) [
      | yes e ↦
          subst
            (λ x.
              (pos < update turn j p x)
              ⊎ ((update turn j p x ≡ pos) × (s'.queue.sequence x ≡ pos + 1)))
            e
            (rw (update_self turn j p) (
              at_cell pos (
                subst (λ x. (pos < turn x) ⊎ ((turn x ≡ pos) × (s.queue.sequence x ≡ pos + 1)))
                  (sym e) k.1)))
      | no other ↦ rw (update_ne turn p other, f.sequence (pos % c) (λ e. other (sym e))) k.1
    ],
  )
  Frame-ThreadIs (Worker.read_value pos) k = keeps (Phase.reading t) pos not_reading k
  Frame-ThreadIs (Worker.clean_value pos) k = keeps (Phase.reading t) pos not_reading k
  Frame-ThreadIs (Worker.recycle pos) k = keeps (Phase.reading t) pos not_reading k
