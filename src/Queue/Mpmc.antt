-- ===== src/Queue/Mpmc.antt =====
-- cds/queue/vyukov_mpmc_bounded.h: Vyukov's bounded queue, under any number of producers and
-- consumers: every access to `m_posEnqueue`, `m_posDequeue` and a cell is a step. `size_t` has 64
-- bits. The accesses are taken to be sequentially consistent.
pub mod Turns
pub mod Moves
pub mod Work
pub mod Claims
pub mod Wins
pub mod Exchange
pub mod Limits
mod Tests
use Prim.Native.Nat.{bit_and}
use temp_data_structure_benc.Prelude.{
  ℕ, zero, suc, ◌+◌, ◌-◌, ◌≡◌, ◌≢◌, ◌<◌, ◌≤◌, ◌%◌, ◌^◌, Option, none, some, Array, update,
}

-- `cell_type` is split into the arrays of its two fields.
pub record MpmcQueue (A : Type 0) : Type 0 where
  pub sequence : Array ℕ
  pub value : Array A
  pub pos_enqueue : ℕ
  pub pos_dequeue : ℕ

module _ {A : Type 0} where
  -- The constructor: the sequence number of a cell is its index.
  abbrev pub new : Array A → MpmcQueue A
  new garbage = record { sequence = λ i. i; value = garbage; pos_enqueue = 0; pos_dequeue = 0 }

-- `pos & m_nBufferMask`, for a capacity of 2 ^ k
unfoldable pub cell : ℕ → ℕ → ℕ
cell k pos = bit_and pos (2 ^ k - 1)

-- `(intptr_t) seq - (intptr_t) pos` in two's complement: negative from 2 ^ 63 on
abbrev pub difference : ℕ → ℕ → ℕ
difference seq pos = (seq + 2 ^ 64 - pos) % 2 ^ 64

-- Where a thread stands in `enqueue` or `dequeue`, with its locals.
pub data Worker (A : Type 0) : Type 0 where
  idle : Worker A
  load_enqueue : (item : A) → Worker A  -- before the load of m_posEnqueue
  test_enqueue : (item : A) (pos : ℕ) → Worker A  -- before the load of the sequence number
  cas_enqueue : (item : A) (pos : ℕ) → Worker A
  write_value : (item : A) (pos : ℕ) → Worker A
  publish : (pos : ℕ) → Worker A  -- before the store of the sequence number
  load_dequeue : Worker A
  test_dequeue : (pos : ℕ) → Worker A
  cas_dequeue : (pos : ℕ) → Worker A
  read_value : (pos : ℕ) → Worker A
  clean_value : (pos : ℕ) → Worker A  -- before the call of value_cleaner
  recycle : (pos : ℕ) → Worker A

-- The queue, its threads, and by position the item that `enqueue` has claimed the position for and
-- the item that `dequeue` has read there.
pub record System (A : Type 0) : Type 0 where
  pub queue : MpmcQueue A
  pub worker : Array (Worker A)
  pub sent : Array (Option A)
  pub got : Array (Option A)

module _ {A : Type 0} where
  abbrev pub start : Array A → System A
  start garbage = record {
    queue = new garbage;
    worker = λ _. Worker.idle;
    sent = λ _. none;
    got = λ _. none;
  }

  abbrev pub at : System A → ℕ → Worker A → System A
  at s tid w = record s { worker = update s.worker tid w }

module _ {A : Type 0} (k : ℕ) (cleaner : A → A) where
  -- One access of the thread `tid`.
  pub data Step (s : System A) (tid : ℕ) : System A → Type 0 where
    begin_enqueue :
        (item : A) → s.worker tid ≡ Worker.idle → Step s tid (at s tid (Worker.load_enqueue item))
    load_enqueue :
        (item : A)
        → s.worker tid ≡ Worker.load_enqueue item
        → Step s tid (at s tid (Worker.test_enqueue item s.queue.pos_enqueue))
    enqueue_ready :
        (item : A) (pos : ℕ)
        → s.worker tid ≡ Worker.test_enqueue item pos
        → difference (s.queue.sequence (cell k pos)) pos ≡ 0
        → Step s tid (at s tid (Worker.cas_enqueue item pos))
    enqueue_full :
        (item : A) (pos : ℕ)
        → s.worker tid ≡ Worker.test_enqueue item pos
        → 2 ^ 63 ≤ difference (s.queue.sequence (cell k pos)) pos
        → Step s tid (at s tid Worker.idle)
    enqueue_late :
        (item : A) (pos : ℕ)
        → s.worker tid ≡ Worker.test_enqueue item pos
        → difference (s.queue.sequence (cell k pos)) pos ≢ 0
        → difference (s.queue.sequence (cell k pos)) pos < 2 ^ 63
        → Step s tid (at s tid (Worker.load_enqueue item))
    enqueue_wins :
        (item : A) (pos : ℕ)
        → s.worker tid ≡ Worker.cas_enqueue item pos
        → s.queue.pos_enqueue ≡ pos
        → Step s tid (record (at s tid (Worker.write_value item pos)) {
          queue = record (s.queue) { pos_enqueue = (pos + 1) % 2 ^ 64 };
          sent = update s.sent pos (some item);
        })
    enqueue_loses :
        (item : A) (pos : ℕ)
        → s.worker tid ≡ Worker.cas_enqueue item pos
        → s.queue.pos_enqueue ≢ pos
        → Step s tid (at s tid (Worker.test_enqueue item pos))
    write_value :
        (item : A) (pos : ℕ)
        → s.worker tid ≡ Worker.write_value item pos
        → Step s tid (record (at s tid (Worker.publish pos)) {
          queue = record (s.queue) { value = update s.queue.value (cell k pos) item };
        })
    publish :
        (pos : ℕ)
        → s.worker tid ≡ Worker.publish pos
        → Step s tid (record (at s tid Worker.idle) {
          queue = record (s.queue) {
            sequence = update s.queue.sequence (cell k pos) ((pos + 1) % 2 ^ 64);
          };
        })
    begin_dequeue : s.worker tid ≡ Worker.idle → Step s tid (at s tid Worker.load_dequeue)
    load_dequeue :
        s.worker tid ≡ Worker.load_dequeue
        → Step s tid (at s tid (Worker.test_dequeue s.queue.pos_dequeue))
    dequeue_ready :
        (pos : ℕ)
        → s.worker tid ≡ Worker.test_dequeue pos
        → difference (s.queue.sequence (cell k pos)) ((pos + 1) % 2 ^ 64) ≡ 0
        → Step s tid (at s tid (Worker.cas_dequeue pos))
    dequeue_empty :
        (pos : ℕ)
        → s.worker tid ≡ Worker.test_dequeue pos
        → 2 ^ 63 ≤ difference (s.queue.sequence (cell k pos)) ((pos + 1) % 2 ^ 64)
        → Step s tid (at s tid Worker.idle)
    dequeue_late :
        (pos : ℕ)
        → s.worker tid ≡ Worker.test_dequeue pos
        → difference (s.queue.sequence (cell k pos)) ((pos + 1) % 2 ^ 64) ≢ 0
        → difference (s.queue.sequence (cell k pos)) ((pos + 1) % 2 ^ 64) < 2 ^ 63
        → Step s tid (at s tid Worker.load_dequeue)
    dequeue_wins :
        (pos : ℕ)
        → s.worker tid ≡ Worker.cas_dequeue pos
        → s.queue.pos_dequeue ≡ pos
        → Step s tid (record (at s tid (Worker.read_value pos)) {
          queue = record (s.queue) { pos_dequeue = (pos + 1) % 2 ^ 64 };
        })
    dequeue_loses :
        (pos : ℕ)
        → s.worker tid ≡ Worker.cas_dequeue pos
        → s.queue.pos_dequeue ≢ pos
        → Step s tid (at s tid (Worker.test_dequeue pos))
    read_value :
        (pos : ℕ)
        → s.worker tid ≡ Worker.read_value pos
        → Step s tid (record (at s tid (Worker.clean_value pos)) {
          got = update s.got pos (some (s.queue.value (cell k pos)));
        })
    clean_value :
        (pos : ℕ)
        → s.worker tid ≡ Worker.clean_value pos
        → Step s tid (record (at s tid (Worker.recycle pos)) {
          queue = record (s.queue) {
            value = update s.queue.value (cell k pos) (cleaner (s.queue.value (cell k pos)));
          };
        })
    recycle :
        (pos : ℕ)
        → s.worker tid ≡ Worker.recycle pos
        → Step s tid (record (at s tid Worker.idle) {
          queue = record (s.queue) {
            sequence = update s.queue.sequence (cell k pos) ((pos + (2 ^ k - 1) + 1) % 2 ^ 64);
          };
        })

  pub data Reach (garbage : Array A) : System A → Type 0 where
    here : Reach garbage (start garbage)
    next : {s t : System A} (tid : ℕ) → Reach garbage s → Step s tid t → Reach garbage t

  -- how many accesses have led to a state
  unfoldable pub steps : {garbage : Array A} {s : System A} → Reach garbage s → ℕ
  steps here = 0
  steps (next tid r st) = suc (steps r)
