-- ===== src/Lock/ReaderWriter/Invariant.antt =====
-- The invariant of `RWSpinWPrefT`: the fields of the word count the threads.
use temp_data_structure_benc.Prelude.{
  ℕ, ◌+◌, ◌≡◌, ◌<◌, ◌≤◌, ◌⊎◌, ◌∙◌, Bool, true, false, inl, refl, sym, ap, update, update_self,
  update_ne, arith, zero, suc,
}
use mathlib.Core.Path.{subst}
use native.Mathlib.Decide.{ℕ_discrete}
use temp_data_structure_benc.Lock.ReaderWriter.{Barrier, Worker, System, start, store}
use temp_data_structure_benc.Lock.ReaderWriter.Count.{bit, count, count-update, count_le}

-- A thread that has the lock as a reader.
abbrev pub reads : Worker → Bool
reads Worker.reading = true
reads Worker.runlock = true
reads (Worker.runlock_cas b) = true
reads _ = false

-- A writer that waits or has the lock.
abbrev pub waits : Worker → Bool
waits Worker.waiting = true
waits (Worker.waiting_cas b) = true
waits Worker.writing = true
waits Worker.wunlock = true
waits (Worker.wunlock_cas b) = true
waits _ = false

-- A thread that has the lock as a writer.
abbrev pub writes : Worker → Bool
writes Worker.writing = true
writes Worker.wunlock = true
writes (Worker.wunlock_cas b) = true
writes _ = false

-- What a thread knows of the word that it expects; no assertion fails.
abbrev pub IsPlace : Worker → Type 0
IsPlace (Worker.rlock_cas b) = (b.writer_count ≡ 0) × (b.writer_active ≡ 0)
IsPlace (Worker.waiting_cas b) = (b.reader_count ≡ 0) × (b.writer_active ≡ 0)
IsPlace Worker.aborted = ⊥
IsPlace _ = Unit

pub record Inv (threads : ℕ) (s : System) : Type 0 where
  pub readers : s.barrier.reader_count ≡ count reads s.worker threads
  pub waiters : s.barrier.writer_count ≡ count waits s.worker threads
  pub writers : s.barrier.writer_active ≡ count writes s.worker threads
  pub one : s.barrier.writer_active ≤ 1
  pub apart : (s.barrier.writer_active ≡ 0) ⊎ (s.barrier.reader_count ≡ 0)
  pub place : (t : ℕ) → IsPlace (s.worker t)

count_none : (f : Worker → Bool) (n : ℕ) → f Worker.idle ≡ false → 0 ≡ count f (λ _. Worker.idle) n
count_none f zero e = refl
count_none f (suc n) e = ground (arith, e, count_none f n e)

pub start-Inv : (threads : ℕ) → Inv threads start
start-Inv threads = record {
  readers = count_none reads threads refl;
  waiters = count_none waits threads refl;
  writers = count_none writes threads refl;
  one = omega arith;
  apart = inl refl;
  place = λ t. tt;
}

module _ {threads : ℕ} {s : System} (v : Inv threads s) (tid : ℕ) (lt : tid < threads) where
  pub known : (w : Worker) → s.worker tid ≡ w → IsPlace w
  known w e = subst IsPlace e (v.place tid)

  -- A thread moves from `old` to `w`, with `b` in the word.
  pub step-Inv :
      (old w : Worker) (b : Barrier)
      → s.worker tid ≡ old
      → (count reads (update s.worker tid w) threads + bit (reads old)
            ≡ s.barrier.reader_count + bit (reads w)
          → count reads (update s.worker tid w) threads ≤ threads
          → b.reader_count ≡ count reads (update s.worker tid w) threads)
      → (count waits (update s.worker tid w) threads + bit (waits old)
            ≡ s.barrier.writer_count + bit (waits w)
          → count waits (update s.worker tid w) threads ≤ threads
          → b.writer_count ≡ count waits (update s.worker tid w) threads)
      → (count writes (update s.worker tid w) threads + bit (writes old)
            ≡ s.barrier.writer_active + bit (writes w)
          → b.writer_active ≡ count writes (update s.worker tid w) threads)
      → b.writer_active ≤ 1
      → (b.writer_active ≡ 0) ⊎ (b.reader_count ≡ 0)
      → IsPlace w
      → Inv threads (store s tid w b)
  step-Inv old w b e readers waiters writers one apart place = record {
    readers =
        readers (changed reads s.barrier.reader_count v.readers)
          (count_le reads (update s.worker tid w) threads);
    waiters =
        waiters (changed waits s.barrier.writer_count v.waiters)
          (count_le waits (update s.worker tid w) threads);
    writers = writers (changed writes s.barrier.writer_active v.writers);
    one = one;
    apart = apart;
    place = λ t. elim (ℕ_discrete tid t) [
      | yes z ↦
          subst (λ k. IsPlace (update s.worker tid w k)) z
            (subst IsPlace (sym (update_self s.worker tid w)) place)
      | no ne ↦ subst IsPlace (sym (update_ne s.worker w ne)) (v.place t)
    ];
  }
    where
      changed :
          (f : Worker → Bool) (n : ℕ)
          → n ≡ count f s.worker threads
          → count f (update s.worker tid w) threads + bit (f old) ≡ n + bit (f w)
      changed f n k =
          ap (λ x. count f (update s.worker tid w) threads + bit (f x)) (sym e)
          ∙ count-update f s.worker tid w threads lt
          ∙ ap (λ m. m + bit (f w)) (sym k)

  -- A thread moves and leaves the word.
  pub move-Inv :
      (old w : Worker)
      → s.worker tid ≡ old
      → bit (reads old) ≡ bit (reads w)
      → bit (waits old) ≡ bit (waits w)
      → bit (writes old) ≡ bit (writes w)
      → IsPlace w
      → Inv threads (store s tid w s.barrier)
  move-Inv old w e r wt wr place =
      step-Inv old w s.barrier e (λ h _. omega (arith, h, r)) (λ h _. omega (arith, h, wt))
        (λ h. omega (arith, h, wr)) v.one v.apart place
