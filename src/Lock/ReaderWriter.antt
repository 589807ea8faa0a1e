-- ===== src/Lock/ReaderWriter.antt =====
-- cds/lock/rwlock.h: `RWSpinWPrefT`, the reader-writer lock that prefers writers, under the threads
-- below a number. Every load of the word and every compare and swap is a step.
pub mod Count
pub mod Invariant
pub mod Exclusion
mod Tests
use temp_data_structure_benc.Prelude.{ℕ, ◌+◌, ◌-◌, ◌%◌, ◌^◌, ◌≡◌, ◌≢◌, ◌<◌, ◌⊎◌, Array, update}

-- The word as its bit fields: 16 bits, 15 bits and one bit.
pub record Barrier : Type 0 where
  pub reader_count : ℕ
  pub writer_count : ℕ
  pub writer_active : ℕ

-- Where a thread stands; `b` is the word that its compare and swap expects.
pub data Worker : Type 0 where
  idle : Worker
  rlock : Worker
  rlock_cas : (b : Barrier) → Worker
  reading : Worker
  runlock : Worker
  runlock_cas : (b : Barrier) → Worker
  wlock : Worker
  wlock_cas : (b : Barrier) → Worker
  waiting : Worker
  waiting_cas : (b : Barrier) → Worker
  writing : Worker
  wunlock : Worker
  wunlock_cas : (b : Barrier) → Worker
  aborted : Worker

pub record System : Type 0 where
  pub barrier : Barrier
  pub worker : Array Worker

abbrev pub start : System
start = record {
  barrier = record { reader_count = 0; writer_count = 0; writer_active = 0 };
  worker = λ _. Worker.idle;
}

abbrev pub move : System → ℕ → Worker → System
move s tid w = record s { worker = update s.worker tid w }

abbrev pub store : System → ℕ → Worker → Barrier → System
store s tid w b = record { barrier = b; worker = update s.worker tid w }

-- One access of the thread `tid`.
pub data Step (s : System) (tid : ℕ) : System → Type 0 where
  begin_rlock : s.worker tid ≡ Worker.idle → Step s tid (move s tid Worker.rlock)
  rlock_load :
      s.worker tid ≡ Worker.rlock
      → Step s tid (
          move s tid
            (Worker.rlock_cas (record (s.barrier) { writer_count = 0; writer_active = 0 })))
  rlock_fails :
      (b : Barrier)
      → s.worker tid ≡ Worker.rlock_cas b
      → s.barrier ≢ b
      → Step s tid (move s tid Worker.rlock)
  rlock_true :
      (b : Barrier)
      → s.worker tid ≡ Worker.rlock_cas b
      → s.barrier ≡ b
      → Step s tid
          (store s tid Worker.reading (record b { reader_count = (b.reader_count + 1) % 2 ^ 16 }))
  begin_runlock : s.worker tid ≡ Worker.reading → Step s tid (move s tid Worker.runlock)
  runlock_load :
      s.worker tid ≡ Worker.runlock
      → s.barrier.writer_active ≡ 0
      → Step s tid (move s tid (Worker.runlock_cas s.barrier))
  runlock_assert :
      s.worker tid ≡ Worker.runlock
      → s.barrier.writer_active ≢ 0
      → Step s tid (move s tid Worker.aborted)
  runlock_fails :
      (b : Barrier)
      → s.worker tid ≡ Worker.runlock_cas b
      → s.barrier ≢ b
      → Step s tid (move s tid Worker.runlock)
  runlock_true :
      (b : Barrier)
      → s.worker tid ≡ Worker.runlock_cas b
      → s.barrier ≡ b
      → Step s tid (
          store s tid Worker.idle
            (record b { reader_count = (b.reader_count + (2 ^ 16 - 1)) % 2 ^ 16 }))
  begin_wlock : s.worker tid ≡ Worker.idle → Step s tid (move s tid Worker.wlock)
  wlock_load : s.worker tid ≡ Worker.wlock → Step s tid (move s tid (Worker.wlock_cas s.barrier))
  wlock_fails :
      (b : Barrier)
      → s.worker tid ≡ Worker.wlock_cas b
      → s.barrier ≢ b
      → Step s tid (move s tid Worker.wlock)
  wlock_true :
      (b : Barrier)
      → s.worker tid ≡ Worker.wlock_cas b
      → s.barrier ≡ b
      → Step s tid
          (store s tid Worker.waiting (record b { writer_count = (b.writer_count + 1) % 2 ^ 15 }))
  waiting_load :
      s.worker tid ≡ Worker.waiting
      → Step s tid (
          move s tid
            (Worker.waiting_cas (record (s.barrier) { reader_count = 0; writer_active = 0 })))
  waiting_fails :
      (b : Barrier)
      → s.worker tid ≡ Worker.waiting_cas b
      → s.barrier ≢ b
      → Step s tid (move s tid Worker.waiting)
  waiting_true :
      (b : Barrier)
      → s.worker tid ≡ Worker.waiting_cas b
      → s.barrier ≡ b
      → Step s tid (store s tid Worker.writing (record b { writer_active = 1 }))
  begin_wunlock : s.worker tid ≡ Worker.writing → Step s tid (move s tid Worker.wunlock)
  wunlock_load :
      s.worker tid ≡ Worker.wunlock
      → s.barrier.writer_active ≡ 1
      → s.barrier.reader_count ≡ 0
      → Step s tid (move s tid (Worker.wunlock_cas s.barrier))
  wunlock_assert :
      s.worker tid ≡ Worker.wunlock
      → (s.barrier.writer_active ≢ 1) ⊎ (s.barrier.reader_count ≢ 0)
      → Step s tid (move s tid Worker.aborted)
  wunlock_fails :
      (b : Barrier)
      → s.worker tid ≡ Worker.wunlock_cas b
      → s.barrier ≢ b
      → Step s tid (move s tid Worker.wunlock)
  wunlock_true :
      (b : Barrier)
      → s.worker tid ≡ Worker.wunlock_cas b
      → s.barrier ≡ b
      → Step s tid (
          store s tid Worker.idle (record b {
            writer_active = 0;
            writer_count = (b.writer_count + (2 ^ 15 - 1)) % 2 ^ 15;
          }))

pub data Reach (threads : ℕ) : System → Type 0 where
  here : Reach threads start
  next : {s t : System} (tid : ℕ) → tid < threads → Reach threads s → Step s tid t → Reach threads t
