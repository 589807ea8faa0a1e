-- ===== src/Lock/Spin.antt =====
-- `SpinT` of spinlock.h as CDS_DEBUG builds it, under any number of threads: every access to
-- `m_spin` and `m_dbgOwnerId` is a step, those of the assertions too. The accesses are taken to be
-- sequentially consistent, and the waiting of `BACKOFF` to change nothing.
pub mod Places
pub mod Exclusion
mod Tests
use temp_data_structure_benc.Prelude.{ℕ, zero, suc, ◌≡◌, ◌≢◌, Array, update}

-- The thread id 0 stands for OS::nullThreadId().
pub record Spin : Type 0 where
  pub spin : ℕ
  pub dbg_owner_id : ℕ

abbrev pub new : Spin
new = record { spin = 0; dbg_owner_id = 0 }

-- What calls tryLock(): a client, the loop of tryLock( nTryCount ) with `try_count` attempts left
-- after this one, or the loop of lock().
pub data Caller : Type 0 where
  client : Caller
  attempts : (try_count : ℕ) → Caller
  locking : Caller

-- Where a thread stands.
pub data Worker : Type 0 where
  idle : Worker  -- does not have the lock
  begin : Worker  -- lock: before its first assertion
  attempt : (try_count : ℕ) → Worker  -- tryLock( nTryCount ): before its loop condition
  try_lock : Caller → Worker  -- tryLock: before its assertion
  cas : Caller → Worker  -- tryLock: before the compare and swap
  be_owner : Caller → Worker  -- tryLock: before the store of the own id
  wait : Worker  -- lock: in the inner loop, before the load of m_spin
  finish : Worker  -- lock: before its last assertion
  owns : Worker  -- has the lock
  check_spin : Worker  -- unlock: before assert( m_spin > 0 )
  check_owner : Worker  -- unlock: before the assertion on the owner
  free : Worker  -- unlock: before the store of the null id
  release : Worker  -- unlock: before the store of 0 to m_spin
  aborted : Worker  -- an assertion has failed

-- The lock and its threads.
pub record System : Type 0 where
  pub lock : Spin
  pub worker : Array Worker

abbrev pub start : System
start = record { lock = new; worker = λ _. Worker.idle }

abbrev pub at : System → ℕ → Worker → System
at s tid w = record s { worker = update s.worker tid w }

-- Where tryLock() returns to: with true, and with false.
abbrev pub when_true : Caller → Worker
when_true Caller.client = Worker.owns
when_true (Caller.attempts n) = Worker.owns
when_true Caller.locking = Worker.finish

abbrev pub when_false : Caller → Worker
when_false Caller.client = Worker.idle
when_false (Caller.attempts n) = Worker.attempt n
when_false Caller.locking = Worker.wait

-- One access of the thread `tid`. A thread locks when it does not have the lock, and unlocks when
-- it has it.
pub data Step (s : System) (tid : ℕ) : System → Type 0 where
  begin_lock : s.worker tid ≡ Worker.idle → Step s tid (at s tid Worker.begin)
  begin_try_lock :
      s.worker tid ≡ Worker.idle → Step s tid (at s tid (Worker.try_lock Caller.client))
  begin_attempts :
      (try_count : ℕ)
      → s.worker tid ≡ Worker.idle
      → Step s tid (at s tid (Worker.attempt try_count))
  not_owned :
      s.worker tid ≡ Worker.begin
      → s.lock.dbg_owner_id ≢ tid
      → Step s tid (at s tid (Worker.try_lock Caller.locking))
  deadlock :
      s.worker tid ≡ Worker.begin → s.lock.dbg_owner_id ≡ tid → Step s tid (at s tid Worker.aborted)
  next_attempt :
      (n : ℕ)
      → s.worker tid ≡ Worker.attempt (suc n)
      → Step s tid (at s tid (Worker.try_lock (Caller.attempts n)))
  give_up : s.worker tid ≡ Worker.attempt zero → Step s tid (at s tid Worker.idle)
  try_not_owned :
      (c : Caller)
      → s.worker tid ≡ Worker.try_lock c
      → s.lock.dbg_owner_id ≢ tid
      → Step s tid (at s tid (Worker.cas c))
  try_deadlock :
      (c : Caller)
      → s.worker tid ≡ Worker.try_lock c
      → s.lock.dbg_owner_id ≡ tid
      → Step s tid (at s tid Worker.aborted)
  cas_succeeds :
      (c : Caller)
      → s.worker tid ≡ Worker.cas c
      → s.lock.spin ≡ 0
      → Step s tid (record (at s tid (Worker.be_owner c)) { lock = record (s.lock) { spin = 1 } })
  cas_fails :
      (c : Caller)
      → s.worker tid ≡ Worker.cas c
      → s.lock.spin ≢ 0
      → Step s tid (at s tid (when_false c))
  store_owner :
      (c : Caller)
      → s.worker tid ≡ Worker.be_owner c
      → Step s tid
          (record (at s tid (when_true c)) { lock = record (s.lock) { dbg_owner_id = tid } })
  wait_more : s.worker tid ≡ Worker.wait → s.lock.spin ≢ 0 → Step s tid s
  wait_ends :
      s.worker tid ≡ Worker.wait
      → s.lock.spin ≡ 0
      → Step s tid (at s tid (Worker.try_lock Caller.locking))
  locked :
      s.worker tid ≡ Worker.finish → s.lock.dbg_owner_id ≡ tid → Step s tid (at s tid Worker.owns)
  not_locked :
      s.worker tid ≡ Worker.finish
      → s.lock.dbg_owner_id ≢ tid
      → Step s tid (at s tid Worker.aborted)
  begin_unlock : s.worker tid ≡ Worker.owns → Step s tid (at s tid Worker.check_spin)
  is_taken :
      s.worker tid ≡ Worker.check_spin → s.lock.spin ≢ 0 → Step s tid (at s tid Worker.check_owner)
  not_taken :
      s.worker tid ≡ Worker.check_spin → s.lock.spin ≡ 0 → Step s tid (at s tid Worker.aborted)
  is_owner :
      s.worker tid ≡ Worker.check_owner
      → s.lock.dbg_owner_id ≡ tid
      → Step s tid (at s tid Worker.free)
  not_owner :
      s.worker tid ≡ Worker.check_owner
      → s.lock.dbg_owner_id ≢ tid
      → Step s tid (at s tid Worker.aborted)
  store_null :
      s.worker tid ≡ Worker.free
      → Step s tid
          (record (at s tid Worker.release) { lock = record (s.lock) { dbg_owner_id = 0 } })
  store_zero :
      s.worker tid ≡ Worker.release
      → Step s tid (record (at s tid Worker.idle) { lock = record (s.lock) { spin = 0 } })

pub data Reach : System → Type 0 where
  here : Reach start
  next : {s t : System} (tid : ℕ) → Reach s → tid ≢ 0 → Step s tid t → Reach t
