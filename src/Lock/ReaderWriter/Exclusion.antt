-- ===== src/Lock/ReaderWriter/Exclusion.antt =====
-- `RWSpinWPrefT` excludes readers while a writer has it, and lets no reader pass a writer.
use temp_data_structure_benc.Prelude.{
  ℕ, ◌^◌, ◌≡◌, ◌<◌, ◌⊎◌, ◌∙◌, Bool, true, false, inl, inr, refl, sym, ap, update, update_ne, arith,
  Bool-cases,
}
use native.Mathlib.Decide.{ℕ_discrete}
use temp_data_structure_benc.Lock.ReaderWriter.{
  Barrier, Worker, System, Step, begin_rlock, rlock_load, rlock_fails, rlock_true, begin_runlock,
  runlock_load, runlock_assert, runlock_fails, runlock_true, begin_wlock, wlock_load, wlock_fails,
  wlock_true, waiting_load, waiting_fails, waiting_true, begin_wunlock, wunlock_load,
  wunlock_assert, wunlock_fails, wunlock_true, Reach, here, next,
}
use temp_data_structure_benc.Lock.ReaderWriter.Count.{bit, count, count-update, count_pos}
use temp_data_structure_benc.Lock.ReaderWriter.Invariant.{
  reads, waits, writes, Inv, start-Inv, known, step-Inv, move-Inv,
}

fields :
    (a b : Barrier)
    → a ≡ b
    → (a.reader_count ≡ b.reader_count)
      × (a.writer_count ≡ b.writer_count)
      × (a.writer_active ≡ b.writer_active)
fields a b e = (
  ap (λ (x : Barrier). x.reader_count) e,
  ap (λ (x : Barrier). x.writer_count) e,
  ap (λ (x : Barrier). x.writer_active) e,
)

-- rlock succeeds.
abbrev pub enters : {s : System} {tid : ℕ} {t : System} → Step s tid t → Bool
enters (rlock_true b e same) = true
enters _ = false

module _ {threads : ℕ} (small : threads < 2 ^ 15) where
  -- A reader's word has no active writer.
  reader_alone :
      {s : System} (v : Inv threads s) (tid : ℕ)
      → tid < threads
      → reads (s.worker tid) ≡ true
      → (0 < s.barrier.reader_count) × (s.barrier.writer_active ≡ 0)
  reader_alone {s = s} v tid lt e =
      let pos : 0 < count reads s.worker threads = count_pos reads s.worker tid threads lt e in
      elim v.apart [
        | inl z ↦ (omega (arith, v.readers), z)
        | inr z ↦ absurd (omega (arith, v.readers))
      ]

  -- A writer's word has no reader.
  writer_alone :
      {s : System} (v : Inv threads s) (tid : ℕ)
      → tid < threads
      → writes (s.worker tid) ≡ true
      → (s.barrier.writer_active ≡ 1) × (s.barrier.reader_count ≡ 0)
  writer_alone {s = s} v tid lt e =
      let pos : 0 < count writes s.worker threads = count_pos writes s.worker tid threads lt e in
      elim v.apart [
        | inl z ↦ absurd (omega (arith, v.writers))
        | inr z ↦ (omega (arith, v.writers, v.one), z)
      ]

  Step-Inv :
      {s : System} {tid : ℕ} {t : System}
      → tid < threads
      → Step s tid t
      → Inv threads s
      → Inv threads t
  Step-Inv {tid = tid} lt (begin_rlock e) v = move-Inv v tid lt _ _ e refl refl refl tt
  Step-Inv {tid = tid} lt (rlock_load e) v = move-Inv v tid lt _ _ e refl refl refl (refl, refl)
  Step-Inv {tid = tid} lt (rlock_fails b e ne) v = move-Inv v tid lt _ _ e refl refl refl tt
  Step-Inv {s = s} {tid = tid} lt (rlock_true b e same) v =
      let (rc, wc, wa) = fields s.barrier b same in
      let (no_waiter, no_writer) = known v tid lt _ e in
      step-Inv v tid lt _ Worker.reading _ e (λ h le. omega arith) (λ h le. omega arith)
        (λ h. omega arith) (omega arith) (inl no_writer) tt
  Step-Inv {tid = tid} lt (begin_runlock e) v = move-Inv v tid lt _ _ e refl refl refl tt
  Step-Inv {tid = tid} lt (runlock_load e z) v = move-Inv v tid lt _ _ e refl refl refl tt
  Step-Inv {tid = tid} lt (runlock_assert e nz) v =
      absurd (nz (reader_alone v tid lt (ap reads e)).1)
  Step-Inv {tid = tid} lt (runlock_fails b e ne) v = move-Inv v tid lt _ _ e refl refl refl tt
  Step-Inv {s = s} {tid = tid} lt (runlock_true b e same) v =
      let (rc, wc, wa) = fields s.barrier b same in
      let (pos, no_writer) = reader_alone v tid lt (ap reads e) in
      step-Inv v tid lt _ Worker.idle _ e (λ h le. omega arith) (λ h le. omega arith)
        (λ h. omega arith) (omega arith) (inl (sym wa ∙ no_writer)) tt
  Step-Inv {tid = tid} lt (begin_wlock e) v = move-Inv v tid lt _ _ e refl refl refl tt
  Step-Inv {tid = tid} lt (wlock_load e) v = move-Inv v tid lt _ _ e refl refl refl tt
  Step-Inv {tid = tid} lt (wlock_fails b e ne) v = move-Inv v tid lt _ _ e refl refl refl tt
  Step-Inv {s = s} {tid = tid} lt (wlock_true b e same) v =
      let (rc, wc, wa) = fields s.barrier b same in
      step-Inv v tid lt _ Worker.waiting _ e (λ h le. omega arith) (λ h le. omega arith)
        (λ h. omega arith) (omega (arith, v.one))
        (elim v.apart [ inl z ↦ inl (sym wa ∙ z) | inr z ↦ inr (sym rc ∙ z) ]) tt
  Step-Inv {tid = tid} lt (waiting_load e) v = move-Inv v tid lt _ _ e refl refl refl (refl, refl)
  Step-Inv {tid = tid} lt (waiting_fails b e ne) v = move-Inv v tid lt _ _ e refl refl refl tt
  Step-Inv {s = s} {tid = tid} lt (waiting_true b e same) v =
      let (rc, wc, wa) = fields s.barrier b same in
      let (no_reader, no_writer) = known v tid lt _ e in
      step-Inv v tid lt _ Worker.writing _ e (λ h le. omega arith) (λ h le. omega arith)
        (λ h. omega arith) (omega arith) (inr no_reader) tt
  Step-Inv {tid = tid} lt (begin_wunlock e) v = move-Inv v tid lt _ _ e refl refl refl tt
  Step-Inv {tid = tid} lt (wunlock_load e a z) v = move-Inv v tid lt _ _ e refl refl refl tt
  Step-Inv {tid = tid} lt (wunlock_assert e bad) v =
      let (active, no_reader) = writer_alone v tid lt (ap writes e) in
      absurd (elim bad [ inl n ↦ n active | inr n ↦ n no_reader ])
  Step-Inv {tid = tid} lt (wunlock_fails b e ne) v = move-Inv v tid lt _ _ e refl refl refl tt
  Step-Inv {s = s} {tid = tid} lt (wunlock_true b e same) v =
      let (rc, wc, wa) = fields s.barrier b same in
      let (active, no_reader) = writer_alone v tid lt (ap writes e) in
      step-Inv v tid lt _ Worker.idle _ e (λ h le. omega arith) (λ h le. omega arith)
        (λ h. omega arith) (omega arith) (inl refl) tt

  Reach-Inv : {s : System} → Reach threads s → Inv threads s
  Reach-Inv here = start-Inv threads
  Reach-Inv (next tid lt r st) = Step-Inv lt st (Reach-Inv r)

  -- With fewer than 2 ^ 15 threads, in every reachable state: while one thread has the lock as a
  -- writer, no thread has it as a reader and no other has it as a writer.
  pub readers_or_writer :
      {s : System}
      → Reach threads s
      → (t u : ℕ) → t < threads
      → u < threads
      → writes (s.worker t) ≡ true
      → (reads (s.worker u) ≡ false) × ((writes (s.worker u) ≡ false) ⊎ (t ≡ u))
  readers_or_writer {s = s} r t u lt lu e =
      let v = Reach-Inv r in
      let (active, no_reader) = writer_alone v t lt e in
      (
        elim (Bool-cases (reads (s.worker u))) [
          | inl yes_reads ↦ absurd (omega (arith, reader_alone v u lu yes_reads))
          | inr not_reads ↦ not_reads
        ],
        elim (ℕ_discrete t u) [
          | yes z ↦ inr z
          | no ne ↦ elim (Bool-cases (writes (s.worker u))) [
            | inl too ↦
                let others = count-update writes s.worker t Worker.idle threads lt in
                let left : 0 < count writes (update s.worker t Worker.idle) threads =
                  count_pos writes (update s.worker t Worker.idle) u threads lu
                    (ap writes (update_ne s.worker Worker.idle ne) ∙ too) in
                absurd (omega (arith, others, ap bit e, v.writers))
            | inr not_writes ↦ inl not_writes
          ]
        ],
      )

  -- With fewer than 2 ^ 15 threads, in every reachable state: rlock succeeds only if no writer has the
  -- lock or has announced that it waits for it.
  pub writers_first :
      {s : System} {tid : ℕ} {t : System}
      → Reach threads s
      → tid < threads
      → (st : Step s tid t) → enters st ≡ true
      → (u : ℕ) → u < threads
      → waits (s.worker u) ≡ false
  writers_first {s = s} {tid = tid} r lt (rlock_true b e same) _ u lu =
      let v = Reach-Inv r in
      let (rc, wc, wa) = fields s.barrier b same in
      elim (Bool-cases (waits (s.worker u))) [
        | inl waiter ↦
            let pos : 0 < count waits s.worker threads =
              count_pos waits s.worker u threads lu waiter in
            absurd (omega (arith, v.waiters, (known v tid lt _ e).0))
        | inr none_waits ↦ none_waits
      ]
  writers_first r lt _ h u lu = absurd (cc (h))
