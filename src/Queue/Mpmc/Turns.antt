-- ===== src/Queue/Mpmc/Turns.antt =====
-- Whose turn it is at a cell of the bounded queue.
use temp_data_structure_benc.Prelude.{ℕ, ◌+◌, ◌≡◌, ◌≢◌, ◌<◌, ◌≤◌, ◌%◌, ◌⊎◌, Option, some, Array}
use temp_data_structure_benc.Queue.Mpmc.{MpmcQueue, Worker, System}

-- The position `p` that a cell serves is free, is being written by the thread `t`, holds an item, or
-- is being read by `t`.
pub data Phase : Type 0 where
  free : Phase
  writing : (t : ℕ) → Phase
  full : Phase
  reading : (t : ℕ) → Phase

module _ {A : Type 0} where
  -- The thread has claimed the position `p` for the item that is recorded, and the cell has it once
  -- it is written.
  abbrev pub Writes : Option A → A → ℕ → Worker A → Type 0
  Writes sent value p (Worker.write_value item pos) = (pos ≡ p) × (sent ≡ some item)
  Writes sent value p (Worker.publish pos) = (pos ≡ p) × (sent ≡ some value)
  Writes sent value p _ = ⊥

  abbrev pub Reads : Option A → A → ℕ → Worker A → Type 0
  Reads sent value p (Worker.read_value pos) = (pos ≡ p) × (sent ≡ some value)
  Reads sent value p (Worker.clean_value pos) = pos ≡ p
  Reads sent value p (Worker.recycle pos) = pos ≡ p
  Reads sent value p _ = ⊥

  -- The thread is in the course of an `enqueue`, or of a `dequeue`, that has claimed the position `p`.
  abbrev pub Inserts : ℕ → Worker A → Type 0
  Inserts p (Worker.write_value item pos) = pos ≡ p
  Inserts p (Worker.publish pos) = pos ≡ p
  Inserts p _ = ⊥

  abbrev pub Removes : ℕ → Worker A → Type 0
  Removes p (Worker.read_value pos) = pos ≡ p
  Removes p (Worker.clean_value pos) = pos ≡ p
  Removes p (Worker.recycle pos) = pos ≡ p
  Removes p _ = ⊥

  -- What a phase of the cell `i` at the position `p` says of the system.
  abbrev pub CellIs : System A → ℕ → ℕ → Phase → Type 0
  CellIs s i p Phase.free = (s.queue.sequence i ≡ p) × (s.queue.pos_enqueue ≤ p)
  CellIs s i p (Phase.writing t) =
      (s.queue.sequence i ≡ p)
      × (s.queue.pos_dequeue ≤ p)
      × (p < s.queue.pos_enqueue)
      × Writes (s.sent p) (s.queue.value i) p (s.worker t)
  CellIs s i p Phase.full =
      (s.queue.sequence i ≡ p + 1)
      × (s.queue.pos_dequeue ≤ p)
      × (p < s.queue.pos_enqueue)
      × (s.sent p ≡ some (s.queue.value i))
  CellIs s i p (Phase.reading t) =
      (s.queue.sequence i ≡ p + 1)
      × (p < s.queue.pos_dequeue)
      × Reads (s.sent p) (s.queue.value i) p (s.worker t)

module _ {A : Type 0} (c : ℕ) (q : MpmcQueue A) (turn : Array ℕ) (phase : Array Phase)
    (tid : ℕ) where
  -- What a thread's place says of the cell that it is about.
  abbrev pub ThreadIs : Worker A → Type 0
  ThreadIs (Worker.test_enqueue item pos) = pos ≤ q.pos_enqueue
  ThreadIs (Worker.cas_enqueue item pos) = (pos ≤ q.pos_enqueue) × (pos ≤ turn (pos % c))
  ThreadIs (Worker.write_value item pos) =
      (turn (pos % c) ≡ pos) × (phase (pos % c) ≡ Phase.writing tid)
  ThreadIs (Worker.publish pos) = (turn (pos % c) ≡ pos) × (phase (pos % c) ≡ Phase.writing tid)
  ThreadIs (Worker.test_dequeue pos) = pos ≤ q.pos_dequeue
  ThreadIs (Worker.cas_dequeue pos) =
      (pos ≤ q.pos_dequeue)
      × ((pos < turn (pos % c)) ⊎ ((turn (pos % c) ≡ pos) × (q.sequence (pos % c) ≡ pos + 1)))
  ThreadIs (Worker.read_value pos) = (turn (pos % c) ≡ pos) × (phase (pos % c) ≡ Phase.reading tid)
  ThreadIs (Worker.clean_value pos) = (turn (pos % c) ≡ pos) × (phase (pos % c) ≡ Phase.reading tid)
  ThreadIs (Worker.recycle pos) = (turn (pos % c) ≡ pos) × (phase (pos % c) ≡ Phase.reading tid)
  ThreadIs _ = Unit

module _ {A : Type 0} (c : ℕ) where
  -- The thread is not at work at the cell `i`.
  abbrev pub Elsewhere : ℕ → Worker A → Type 0
  Elsewhere i (Worker.write_value item pos) = pos % c ≢ i
  Elsewhere i (Worker.publish pos) = pos % c ≢ i
  Elsewhere i (Worker.read_value pos) = pos % c ≢ i
  Elsewhere i (Worker.clean_value pos) = pos % c ≢ i
  Elsewhere i (Worker.recycle pos) = pos % c ≢ i
  Elsewhere i _ = Unit

-- The positions in use are below 2 ^ 63 and a cell serves its own, none of them a round ahead of
-- `m_posDequeue`.
pub record Inv {A : Type 0} (c n : ℕ) (s : System A) : Type 0 where
  pub turn : Array ℕ
  pub phase : Array Phase
  pub cells : (i : ℕ) → i < c → CellIs s i (turn i) (phase i)
  pub own : (i : ℕ) → i < c → turn i % c ≡ i
  pub in_round : (i : ℕ) → i < c → turn i < s.queue.pos_dequeue + c
  pub not_behind : (i : ℕ) → i < c → s.queue.pos_enqueue ≤ turn i + c
  pub threads : (t : ℕ) → ThreadIs c s.queue turn phase t (s.worker t)
  pub order : s.queue.pos_dequeue ≤ s.queue.pos_enqueue
  pub small : s.queue.pos_enqueue ≤ n
  pub exchanged :
      (p : ℕ) (x : A) → s.got p ≡ some x → (p < s.queue.pos_dequeue) × (s.sent p ≡ some x)
