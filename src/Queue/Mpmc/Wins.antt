-- ===== src/Queue/Mpmc/Wins.antt =====
-- The steps of the bounded queue that claim a position.
use temp_data_structure_benc.Prelude.{
  ℕ, suc, ◌+◌, ◌≡◌, ◌<◌, ◌≤◌, ◌%◌, ◌^◌, ◌⊎◌, inl, inr, refl, sym, ap, ◌∙◌, some, update,
  update_self, update_ne, arith,
}
use temp_data_structure_benc.Prelude.Mask.{mod_unique}
use native.Mathlib.Nat.{mod-lt}
use temp_data_structure_benc.Queue.Mpmc.{Worker, System, at}
use temp_data_structure_benc.Queue.Mpmc.Turns.{Phase, CellIs, ThreadIs, Inv}
use temp_data_structure_benc.Queue.Mpmc.Work.{Work-Inv}
use temp_data_structure_benc.Queue.Mpmc.Claims.{there, cell_in}

-- A cell whose position is not claimed yet is free.
phase-free :
    {A : Type 0} (s : System A) (i p : ℕ) (h : Phase)
    → CellIs s i p h
    → s.queue.pos_enqueue ≤ p
    → s.queue.pos_dequeue ≤ s.queue.pos_enqueue
    → h ≡ Phase.free
phase-free s i p Phase.free k e o = refl
phase-free s i p (Phase.writing t) k e o = absurd (omega (arith, k.2))
phase-free s i p Phase.full k e o = absurd (omega (arith, k.2))
phase-free s i p (Phase.reading t) k e o = absurd (omega (arith, k.1))

-- A cell with the sequence number of an item that is not claimed yet is full.
phase-full :
    {A : Type 0} (s : System A) (i p : ℕ) (h : Phase)
    → CellIs s i p h
    → s.queue.sequence i ≡ p + 1
    → s.queue.pos_dequeue ≤ p
    → h ≡ Phase.full
phase-full s i p Phase.free k e o = absurd (omega (arith, k.0))
phase-full s i p (Phase.writing t) k e o = absurd (omega (arith, k.0))
phase-full s i p Phase.full k e o = refl
phase-full s i p (Phase.reading t) k e o = absurd (omega (arith, k.1))

module _ {A : Type 0} {c n : ℕ} {s : System A} (v : Inv c n s) (tid : ℕ) (two : 2 ≤ c)
    (fits : n + c < 2 ^ 63) where
  -- The position that a compare and swap claims is the one that its cell serves.
  turn-at : (pos : ℕ) → pos ≤ v.turn (pos % c) → s.queue.pos_dequeue ≤ pos → v.turn (pos % c) ≡ pos
  turn-at pos up order =
      let below : pos % c < c = mod-lt pos (omega arith) in
      sym (
        mod_unique c pos (v.turn (pos % c)) (sym (v.own (pos % c) below)) up
          (omega (arith, v.in_round (pos % c) below)))

  -- A compare and swap of m_posEnqueue.
  pub enqueue_wins-Inv :
      (item : A) (pos : ℕ)
      → s.worker tid ≡ Worker.cas_enqueue item pos
      → s.queue.pos_enqueue ≡ pos
      → Inv c (suc n) (record (at s tid (Worker.write_value item pos)) {
        queue = record (s.queue) { pos_enqueue = (pos + 1) % 2 ^ 64 };
        sent = update s.sent pos (some item);
      })
  enqueue_wins-Inv item pos e won =
      Work-Inv {v = v} {tid = tid} {j = pos % c} {p = pos} {h = Phase.writing tid} (record {
        frame = record {
          elsewhere = λ i ne. rw e tt;
          sequence = λ i _. refl;
          value = λ i _. refl;
          worker = λ t ne. update_ne s.worker (Worker.write_value item pos) (λ q. ne (sym q));
          enqueue = λ p ne h. omega (arith, v.small, λ (q : pos ≡ p). ne (ap (λ m. m % c) (sym q)));
          enqueue_up = omega (arith, v.small);
          dequeue = λ p _ h. h;
          dequeue_up = omega arith;
          sent = λ p h. update_ne s.sent (some item) (omega arith);
        };
        below = mod-lt pos (omega arith);
        cell =
            rw
              (
                update_self s.worker tid (Worker.write_value item pos),
                update_self s.sent pos (some item),
              )
              (cell.0, omega (arith, v.order), omega (arith, v.small), (refl, refl));
        own = refl;
        in_round = omega (arith, turn, v.in_round (pos % c) (mod-lt pos (omega arith)));
        not_behind = omega (arith, v.small);
        up = omega (arith, turn);
        not_writing = λ t ne q. ground (arith, free, q);
        not_reading = λ t ne q. ground (arith, free, q);
        filled = λ q same seq. absurd (omega (arith, cell.0, turn));
        thread =
            rw (update_self s.worker tid (Worker.write_value item pos))
              (update_self v.turn (pos % c) pos, update_self v.phase (pos % c) (Phase.writing tid));
        order = omega (arith, v.order, v.small);
        small = omega (arith, v.small);
        exchanged = λ q x g.
            let (before, same) = v.exchanged q x g in
            (
              before,
              update_ne s.sent {i = pos} {j = q} (some item) (omega (arith, v.order, before))
                  ∙ same,
            );
      })
    where
      here : ThreadIs c s.queue v.turn v.phase tid (Worker.cas_enqueue item pos)
      here = there v tid two fits (Worker.cas_enqueue item pos) e

      turn : v.turn (pos % c) ≡ pos
      turn = turn-at pos here.1 (omega (arith, v.order))

      free : v.phase (pos % c) ≡ Phase.free
      free =
          phase-free s (pos % c) (v.turn (pos % c)) (v.phase (pos % c))
            (v.cells (pos % c) (mod-lt pos (omega arith))) (omega (arith, turn)) v.order

      cell : CellIs s (pos % c) pos Phase.free
      cell = cell_in v tid two fits (turn, free)

  -- A compare and swap of m_posDequeue.
  pub dequeue_wins-Inv :
      (pos : ℕ)
      → s.worker tid ≡ Worker.cas_dequeue pos
      → s.queue.pos_dequeue ≡ pos
      → Inv c (suc n) (record (at s tid (Worker.read_value pos)) {
        queue = record (s.queue) { pos_dequeue = (pos + 1) % 2 ^ 64 };
      })
  dequeue_wins-Inv pos e won =
      Work-Inv {v = v} {tid = tid} {j = pos % c} {p = pos} {h = Phase.reading tid} (record {
        frame = record {
          elsewhere = λ i ne. rw e tt;
          sequence = λ i _. refl;
          value = λ i _. refl;
          worker = λ t ne. update_ne s.worker (Worker.read_value pos) (λ q. ne (sym q));
          enqueue = λ p _ h. h;
          enqueue_up = omega arith;
          dequeue = λ p ne h.
              omega (arith, v.small, v.order, λ (q : pos ≡ p). ne (ap (λ m. m % c) (sym q)));
          dequeue_up = omega (arith, v.small, v.order);
          sent = λ p h. refl;
        };
        below = mod-lt pos (omega arith);
        cell =
            rw (update_self s.worker tid (Worker.read_value pos))
              (cell.0, omega (arith, v.small, v.order), (refl, cell.3));
        own = refl;
        in_round = omega (arith, v.small, v.order);
        not_behind = omega (arith, turn, v.not_behind (pos % c) (mod-lt pos (omega arith)));
        up = omega (arith, turn);
        not_writing = λ t ne q. ground (arith, full, q);
        not_reading = λ t ne q. ground (arith, full, q);
        filled = λ q same seq. inr (sym turn ∙ same, seq);
        thread =
            rw (update_self s.worker tid (Worker.read_value pos))
              (update_self v.turn (pos % c) pos, update_self v.phase (pos % c) (Phase.reading tid));
        order = omega (arith, cell.2, v.small);
        small = omega (arith, v.small);
        exchanged = λ q x g.
            let (before, same) = v.exchanged q x g in
            (omega (arith, before, v.small, v.order), same);
      })
    where
      here : ThreadIs c s.queue v.turn v.phase tid (Worker.cas_dequeue pos)
      here = there v tid two fits (Worker.cas_dequeue pos) e

      served :
          (pos < v.turn (pos % c))
            ⊎ ((v.turn (pos % c) ≡ pos) × (s.queue.sequence (pos % c) ≡ pos + 1))
          → (v.turn (pos % c) ≡ pos) × (s.queue.sequence (pos % c) ≡ pos + 1)
      served (inl past) =
          absurd (omega (arith, past, turn-at pos (omega (arith, past)) (omega (arith, won))))
      served (inr now) = now

      turn : v.turn (pos % c) ≡ pos
      turn = (served here.1).0

      full : v.phase (pos % c) ≡ Phase.full
      full =
          phase-full s (pos % c) (v.turn (pos % c)) (v.phase (pos % c))
            (v.cells (pos % c) (mod-lt pos (omega arith))) (omega (arith, turn, (served here.1).1))
            (omega (arith, turn))

      cell : CellIs s (pos % c) pos Phase.full
      cell = cell_in v tid two fits (turn, full)
