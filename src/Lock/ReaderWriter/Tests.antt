-- ===== src/Lock/ReaderWriter/Tests.antt =====
-- A writer that has the lock, and a reader that enters a free one.
use temp_data_structure_benc.Prelude.{ℕ, ◌≡◌, ◌⊎◌, ◌^◌, ◌<◌, false, refl, arith}
use temp_data_structure_benc.Lock.ReaderWriter.{
  Barrier, System, Step, begin_rlock, rlock_load, rlock_true, begin_wlock, wlock_load, wlock_true,
  waiting_load, waiting_true, Reach, here, next,
}
use temp_data_structure_benc.Lock.ReaderWriter.Invariant.{reads, waits, writes}
use temp_data_structure_benc.Lock.ReaderWriter.Exclusion.{readers_or_writer, writers_first}

abbrev words : ℕ → ℕ → ℕ → Barrier
words r w a = record { reader_count = r; writer_count = w; writer_active = a }

abbrev writer_in : (s : System) × Reach 2 s
writer_in = (
  _,
  next 0 (omega arith)
      (next 0 (omega arith)
        (next 0 (omega arith)
          (next 0 (omega arith) (next 0 (omega arith) here (begin_wlock refl)) (wlock_load refl))
          (wlock_true (words 0 0 0) refl refl))
        (waiting_load refl))
      (waiting_true (words 0 1 0) refl refl),
)

abbrev reader_ready : (s : System) × Reach 2 s
reader_ready =
    (_, next 1 (omega arith) (next 1 (omega arith) here (begin_rlock refl)) (rlock_load refl))

abbrev enter : (t : System) × Step reader_ready.0 1 t
enter = (_, rlock_true (words 0 0 0) refl refl)

small : 2 < 2 ^ 15
small = omega arith

readers_or_writer_example :
    (reads (writer_in.0.worker 1) ≡ false)
    × ((writes (writer_in.0.worker 1) ≡ false) ⊎ (◌≡◌ {A = ℕ} 0 1))
readers_or_writer_example = readers_or_writer small writer_in.1 0 1 (omega arith) (omega arith) refl

writers_first_example : waits (reader_ready.0.worker 0) ≡ false
writers_first_example =
    writers_first small reader_ready.1 (omega arith) enter.1 refl 0 (omega arith)
