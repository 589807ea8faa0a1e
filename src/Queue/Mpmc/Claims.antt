-- ===== src/Queue/Mpmc/Claims.antt =====
-- The steps of the bounded queue at a cell whose position the thread has claimed.
use temp_data_structure_benc.Prelude.{
  ℕ, suc, ◌+◌, ◌-◌, ◌≡◌, ◌≢◌, ◌⊎◌, Array, Option, ◌<◌, ◌≤◌, ◌%◌, ◌^◌, inl, inr, refl, sym, ap, ◌∙◌,
  some, update, update_self, update_ne, arith,
}
use mathlib.Core.Path.{subst}
use native.Mathlib.Decide.{ℕ_discrete}
use native.Mathlib.Nat.{add-mod_right, mod-lt}
use temp_data_structure_benc.Queue.Mpmc.{Worker, System, at}
use temp_data_structure_benc.Queue.Mpmc.Turns.{
  Phase, Writes, Reads, CellIs, ThreadIs, Elsewhere, Inv,
}
use temp_data_structure_benc.Queue.Mpmc.Work.{Work-Inv}

-- A phase belongs to one thread.
writing-ne : {h : Phase} {t u : ℕ} → h ≡ Phase.writing u → t ≢ u → h ≢ Phase.writing t
writing-ne e ne e' = ground arith

reading-ne : {h : Phase} {t u : ℕ} → h ≡ Phase.reading u → t ≢ u → h ≢ Phase.reading t
reading-ne e ne e' = ground arith

module _ {A : Type 0} {c n : ℕ} {s : System A} (v : Inv c n s) (tid : ℕ) (two : 2 ≤ c)
    (fits : n + c < 2 ^ 63) where
  pub there : (w : Worker A) → s.worker tid ≡ w → ThreadIs c s.queue v.turn v.phase tid w
  there w e = subst (ThreadIs c s.queue v.turn v.phase tid) e (v.threads tid)

  pub cell_in :
      {pos : ℕ} {h : Phase}
      → (v.turn (pos % c) ≡ pos) × (v.phase (pos % c) ≡ h)
      → CellIs s (pos % c) pos h
  cell_in {pos} {h} k =
      subst (λ p. CellIs s (pos % c) p h) k.0
        (subst (CellIs s (pos % c) (v.turn (pos % c))) k.1
          (v.cells (pos % c) (mod-lt pos (omega arith))))

-- A step of the thread that has claimed the position `pos`, after which its cell serves `p` in the
-- phase `h`; the positions of the queue and the record of what is sent stay.
module _ {A : Type 0} {c n : ℕ} {s s' : System A} (v : Inv c n s) (tid : ℕ) (two : 2 ≤ c) {pos : ℕ}
    {mine : Phase} (here : (v.turn (pos % c) ≡ pos) × (v.phase (pos % c) ≡ mine))
    (alone : (t : ℕ) → t ≢ tid → (mine ≢ Phase.writing t) × (mine ≢ Phase.reading t))
    (same_enqueue : s'.queue.pos_enqueue ≡ s.queue.pos_enqueue)
    (same_dequeue : s'.queue.pos_dequeue ≡ s.queue.pos_dequeue) (same_sent : s'.sent ≡ s.sent) where
  held-Inv :
      (p : ℕ) (h : Phase)
      → ((i : ℕ) → i ≢ pos % c → Elsewhere c i (s.worker tid))
      → ((i : ℕ) → i ≢ pos % c → s'.queue.sequence i ≡ s.queue.sequence i)
      → ((i : ℕ) → i ≢ pos % c → s'.queue.value i ≡ s.queue.value i)
      → ((t : ℕ) → t ≢ tid → s'.worker t ≡ s.worker t)
      → CellIs s' (pos % c) p h
      → (p % c ≡ pos % c) × (p < s.queue.pos_dequeue + c) × (pos ≤ p)
      → ((q : ℕ)
          → pos ≡ q
          → s.queue.sequence (pos % c) ≡ q + 1
          → (q < p) ⊎ ((p ≡ q) × (s'.queue.sequence (pos % c) ≡ q + 1)))
      → ThreadIs c s'.queue
          (update v.turn (pos % c) p)
          (update v.phase (pos % c) h)
          tid
          (s'.worker tid)
      → ((q : ℕ) (x : A) → s'.got q ≡ some x → (q < s.queue.pos_dequeue) × (s.sent q ≡ some x))
      → Inv c (suc n) s'
  held-Inv p h away sequence value worker cell round filled thread got =
      let below : pos % c < c = mod-lt pos (omega arith) in
      Work-Inv {v = v} {tid = tid} {j = pos % c} {p = p} {h = h} (record {
        frame = record {
          elsewhere = away;
          sequence = sequence;
          value = value;
          worker = worker;
          enqueue = λ q _ k. omega (arith, same_enqueue);
          enqueue_up = omega (arith, same_enqueue);
          dequeue = λ q _ k. omega (arith, same_dequeue);
          dequeue_up = omega (arith, same_dequeue);
          sent = λ q _. ap (λ (f : Array (Option A)). f q) same_sent;
        };
        below = below;
        cell = cell;
        own = round.0;
        in_round = omega (arith, round.1, same_dequeue);
        not_behind = omega (arith, round.2, here.0, v.not_behind (pos % c) below, same_enqueue);
        up = omega (arith, here.0, round.2);
        not_writing = λ t ne q. (alone t ne).0 (sym here.1 ∙ q);
        not_reading = λ t ne q. (alone t ne).1 (sym here.1 ∙ q);
        filled = λ q same. filled q (sym here.0 ∙ same);
        thread = thread;
        order = omega (arith, v.order, same_enqueue, same_dequeue);
        small = omega (arith, v.small, same_enqueue);
        exchanged = λ q x g.
            let (before, same) = got q x g in
            (
              omega (arith, before, same_dequeue),
              ap (λ (f : Array (Option A)). f q) same_sent ∙ same,
            );
      })

writes_alone :
    (tid t : ℕ)
    → t ≢ tid
    → (Phase.writing tid ≢ Phase.writing t) × (Phase.writing tid ≢ Phase.reading t)
writes_alone tid t ne = (writing-ne refl ne, λ e. ground (arith, e))

reads_alone :
    (tid t : ℕ)
    → t ≢ tid
    → (Phase.reading tid ≢ Phase.writing t) × (Phase.reading tid ≢ Phase.reading t)
reads_alone tid t ne = (λ e. ground (arith, e), reading-ne refl ne)

module _ {A : Type 0} {c n : ℕ} {s : System A} (v : Inv c n s) (tid : ℕ) (two : 2 ≤ c)
    (fits : n + c < 2 ^ 63) where
  -- the round of a position that is still to be removed, and of one that is being removed
  writing_round :
      {pos : ℕ}
      → v.turn (pos % c) ≡ pos
      → (pos % c ≡ pos % c) × (pos < s.queue.pos_dequeue + c) × (pos ≤ pos)
  writing_round {pos} e =
      (refl, omega (arith, e, v.in_round (pos % c) (mod-lt pos (omega arith))), omega arith)

  -- The store of an item.
  pub write-Inv :
      (item : A) (pos : ℕ)
      → s.worker tid ≡ Worker.write_value item pos
      → Inv c (suc n) (record (at s tid (Worker.publish pos)) {
        queue = record (s.queue) { value = update s.queue.value (pos % c) item };
      })
  write-Inv item pos e =
      held-Inv v tid two here (writes_alone tid) refl refl refl pos (Phase.writing tid)
        (λ i ne. rw e (λ q. ne (sym q))) (λ i _. refl)
        (λ i ne. update_ne s.queue.value item (λ q. ne (sym q)))
        (λ t ne. update_ne s.worker (Worker.publish pos) (λ q. ne (sym q)))
        (rw
          (update_self s.worker tid (Worker.publish pos), update_self s.queue.value (pos % c) item)
          (cell.0, cell.1, cell.2, (refl, at_work.1)))
        (writing_round here.0) (λ q same seq. inr (same, seq))
        (rw (update_self s.worker tid (Worker.publish pos))
          (update_self v.turn (pos % c) pos, update_self v.phase (pos % c) (Phase.writing tid)))
        (v.exchanged)
    where
      here : ThreadIs c s.queue v.turn v.phase tid (Worker.write_value item pos)
      here = there v tid two fits (Worker.write_value item pos) e

      cell : CellIs s (pos % c) pos (Phase.writing tid)
      cell = cell_in v tid two fits here

      at_work : Writes (s.sent pos) (s.queue.value (pos % c)) pos (Worker.write_value item pos)
      at_work = subst (Writes (s.sent pos) (s.queue.value (pos % c)) pos) e cell.3

  -- The store of the sequence number of an item.
  pub publish-Inv :
      (pos : ℕ)
      → s.worker tid ≡ Worker.publish pos
      → Inv c (suc n) (record (at s tid (Worker.idle)) {
        queue = record (s.queue) {
          sequence = update s.queue.sequence (pos % c) ((pos + 1) % 2 ^ 64);
        };
      })
  publish-Inv pos e =
      held-Inv v tid two here (writes_alone tid) refl refl refl pos Phase.full
        (λ i ne. rw e (λ q. ne (sym q)))
        (λ i ne. update_ne s.queue.sequence ((pos + 1) % 2 ^ 64) (λ q. ne (sym q))) (λ i _. refl)
        (λ t ne. update_ne s.worker (Worker.idle) (λ q. ne (sym q)))
        (rw (update_self s.queue.sequence (pos % c) ((pos + 1) % 2 ^ 64))
          (omega (arith, cell.2, v.small), cell.1, cell.2, at_work.1))
        (writing_round here.0) (λ q same seq. absurd (omega (arith, cell.0)))
        (rw (update_self s.worker tid (Worker.idle)) tt) (v.exchanged)
    where
      here : ThreadIs c s.queue v.turn v.phase tid (Worker.publish pos)
      here = there v tid two fits (Worker.publish pos) e

      cell : CellIs s (pos % c) pos (Phase.writing tid)
      cell = cell_in v tid two fits here

      at_work : Writes (s.sent pos) (s.queue.value (pos % c)) pos (Worker.publish pos)
      at_work = subst (Writes (s.sent pos) (s.queue.value (pos % c)) pos) e cell.3

  -- The load of an item.
  pub read-Inv :
      (pos : ℕ)
      → s.worker tid ≡ Worker.read_value pos
      → Inv c (suc n) (record (at s tid (Worker.clean_value pos)) {
        got = update s.got pos (some (s.queue.value (pos % c)));
      })
  read-Inv pos e =
      held-Inv v tid two here (reads_alone tid) refl refl refl pos (Phase.reading tid)
        (λ i ne. rw e (λ q. ne (sym q))) (λ i _. refl) (λ i _. refl)
        (λ t ne. update_ne s.worker (Worker.clean_value pos) (λ q. ne (sym q)))
        (rw (update_self s.worker tid (Worker.clean_value pos)) (cell.0, cell.1, refl))
        (writing_round here.0) (λ q same seq. inr (same, seq))
        (rw (update_self s.worker tid (Worker.clean_value pos))
          (update_self v.turn (pos % c) pos, update_self v.phase (pos % c) (Phase.reading tid)))
        (λ q x g. elim (ℕ_discrete pos q) [
          | yes same ↦
              subst (λ r. (r < s.queue.pos_dequeue) × (s.sent r ≡ some x)) same
                (
                  cell.1,
                  at_work.1
                      ∙ sym (update_self s.got pos (some (s.queue.value (pos % c))))
                      ∙ ap (update s.got pos (some (s.queue.value (pos % c)))) same
                      ∙ g,
                )
          | no ne ↦ v.exchanged q x (sym (update_ne s.got (some (s.queue.value (pos % c))) ne) ∙ g)
        ])
    where
      here : ThreadIs c s.queue v.turn v.phase tid (Worker.read_value pos)
      here = there v tid two fits (Worker.read_value pos) e

      cell : CellIs s (pos % c) pos (Phase.reading tid)
      cell = cell_in v tid two fits here

      at_work : Reads (s.sent pos) (s.queue.value (pos % c)) pos (Worker.read_value pos)
      at_work = subst (Reads (s.sent pos) (s.queue.value (pos % c)) pos) e cell.2

  -- The call of the value cleaner.
  pub clean-Inv :
      (cleaner : A → A) (pos : ℕ)
      → s.worker tid ≡ Worker.clean_value pos
      → Inv c (suc n) (record (at s tid (Worker.recycle pos)) {
        queue = record (s.queue) {
          value = update s.queue.value (pos % c) (cleaner (s.queue.value (pos % c)));
        };
      })
  clean-Inv cleaner pos e =
      held-Inv v tid two here (reads_alone tid) refl refl refl pos (Phase.reading tid)
        (λ i ne. rw e (λ q. ne (sym q))) (λ i _. refl)
        (λ i ne. update_ne s.queue.value (cleaner (s.queue.value (pos % c))) (λ q. ne (sym q)))
        (λ t ne. update_ne s.worker (Worker.recycle pos) (λ q. ne (sym q)))
        (rw (update_self s.worker tid (Worker.recycle pos)) (cell.0, cell.1, refl))
        (writing_round here.0) (λ q same seq. inr (same, seq))
        (rw (update_self s.worker tid (Worker.recycle pos))
          (update_self v.turn (pos % c) pos, update_self v.phase (pos % c) (Phase.reading tid)))
        (v.exchanged)
    where
      here : ThreadIs c s.queue v.turn v.phase tid (Worker.clean_value pos)
      here = there v tid two fits (Worker.clean_value pos) e

      cell : CellIs s (pos % c) pos (Phase.reading tid)
      cell = cell_in v tid two fits here

  -- The store of the sequence number of a cell that is free again.
  pub recycle-Inv :
      (pos : ℕ)
      → s.worker tid ≡ Worker.recycle pos
      → Inv c (suc n) (record (at s tid (Worker.idle)) {
        queue = record (s.queue) {
          sequence = update s.queue.sequence (pos % c) ((pos + (c - 1) + 1) % 2 ^ 64);
        };
      })
  recycle-Inv pos e =
      held-Inv v tid two here (reads_alone tid) refl refl refl (pos + c) Phase.free
        (λ i ne. rw e (λ q. ne (sym q)))
        (λ i ne. update_ne s.queue.sequence ((pos + (c - 1) + 1) % 2 ^ 64) (λ q. ne (sym q)))
        (λ i _. refl) (λ t ne. update_ne s.worker (Worker.idle) (λ q. ne (sym q)))
        (rw (update_self s.queue.sequence (pos % c) ((pos + (c - 1) + 1) % 2 ^ 64)) (
          omega (arith, cell.1, v.small, v.order),
          omega (arith, here.0, v.not_behind (pos % c) (mod-lt pos (omega arith))),
        ))
        (add-mod_right pos c, omega (arith, cell.1), omega arith) (λ q same seq. inl (omega arith))
        (rw (update_self s.worker tid (Worker.idle)) tt) (v.exchanged)
    where
      here : ThreadIs c s.queue v.turn v.phase tid (Worker.recycle pos)
      here = there v tid two fits (Worker.recycle pos) e

      cell : CellIs s (pos % c) pos (Phase.reading tid)
      cell = cell_in v tid two fits here
