-- ===== src/Lock/Reentrant.antt =====
-- `ReentrantSpinT` of spinlock.h with `atomic32u_t`, under any number of threads: every access to
-- `m_spin` and `m_OwnerId` is a step. The accesses are taken to be sequentially consistent, and the
-- waiting of `BACKOFF` to change nothing.
pub mod Places
pub mod Moves
pub mod Exclusion
mod Tests
use temp_data_structure_benc.Prelude.{
  ℕ, zero, suc, ◌+◌, ◌-◌, ◌≡◌, ◌≢◌, ◌<◌, ◌≤◌, ◌%◌, ◌^◌, Array, update,
}

-- The thread id 0 stands for OS::nullThreadId().
pub record ReentrantSpin : Type 0 where
  pub spin : ℕ
  pub owner_id : ℕ

abbrev pub new : ReentrantSpin
new = record { spin = 0; owner_id = 0 }

-- Where a thread stands.
pub data Worker : Type 0 where
  idle : Worker
  acquire : Worker  -- lock: before the compare and swap
  wait : Worker  -- lock: in the inner loop, before the load of m_spin
  attempt : (try_count : ℕ) → Worker  -- tryLock: with `nTryCount` attempts left
  be_owner : Worker  -- before the store of the own id
  inc : Worker  -- tryLockOwned: before the increment
  check : Worker  -- unlock: before the load of m_spin
  dec : Worker  -- unlock: before the decrement
  free : Worker  -- unlock: before the store of the null id
  release : Worker  -- unlock: before the store of 0 to m_spin
  give : (new_owner : ℕ) → Worker  -- changeOwner: before the store of the new id

-- The lock, its threads, and how many times each of them has it locked.
pub record System : Type 0 where
  pub lock : ReentrantSpin
  pub worker : Array Worker
  pub held : Array ℕ

abbrev pub start : System
start = record { lock = new; worker = λ _. Worker.idle; held = λ _. 0 }

abbrev pub at : System → ℕ → Worker → System
at s tid w = record s { worker = update s.worker tid w }

-- One access of the thread `tid`. A thread does not lock 2 ^ 32 times in a row.
pub data Step (s : System) (tid : ℕ) : System → Type 0 where
  lock_owned :
      s.worker tid ≡ Worker.idle
      → s.lock.owner_id ≡ tid
      → s.held tid + 1 < 2 ^ 32
      → Step s tid (at s tid Worker.inc)
  begin_lock :
      s.worker tid ≡ Worker.idle → s.lock.owner_id ≢ tid → Step s tid (at s tid Worker.acquire)
  begin_try_lock :
      (try_count : ℕ)
      → s.worker tid ≡ Worker.idle
      → s.lock.owner_id ≢ tid
      → Step s tid (at s tid (Worker.attempt try_count))
  cas_succeeds :
      s.worker tid ≡ Worker.acquire
      → s.lock.spin ≡ 0
      → Step s tid (record (at s tid Worker.be_owner) {
        lock = record (s.lock) { spin = 1 };
        held = update s.held tid 1;
      })
  cas_fails : s.worker tid ≡ Worker.acquire → s.lock.spin ≢ 0 → Step s tid (at s tid Worker.wait)
  wait_more : s.worker tid ≡ Worker.wait → s.lock.spin ≢ 0 → Step s tid s
  wait_ends : s.worker tid ≡ Worker.wait → s.lock.spin ≡ 0 → Step s tid (at s tid Worker.acquire)
  attempt_succeeds :
      (n : ℕ)
      → s.worker tid ≡ Worker.attempt (suc n)
      → s.lock.spin ≡ 0
      → Step s tid (record (at s tid Worker.be_owner) {
        lock = record (s.lock) { spin = 1 };
        held = update s.held tid 1;
      })
  attempt_fails :
      (n : ℕ)
      → s.worker tid ≡ Worker.attempt (suc n)
      → s.lock.spin ≢ 0
      → Step s tid (at s tid (Worker.attempt n))
  give_up : s.worker tid ≡ Worker.attempt zero → Step s tid (at s tid Worker.idle)
  store_owner :
      s.worker tid ≡ Worker.be_owner
      → Step s tid (record (at s tid Worker.idle) { lock = record (s.lock) { owner_id = tid } })
  increment :
      s.worker tid ≡ Worker.inc
      → Step s tid (record (at s tid Worker.idle) {
        lock = record (s.lock) { spin = (s.lock.spin + 1) % 2 ^ 32 };
        held = update s.held tid (s.held tid + 1);
      })
  unlock_foreign : s.worker tid ≡ Worker.idle → s.lock.owner_id ≢ tid → Step s tid s
  begin_unlock :
      s.worker tid ≡ Worker.idle → s.lock.owner_id ≡ tid → Step s tid (at s tid Worker.check)
  check_inner : s.worker tid ≡ Worker.check → 1 < s.lock.spin → Step s tid (at s tid Worker.dec)
  check_last : s.worker tid ≡ Worker.check → s.lock.spin ≤ 1 → Step s tid (at s tid Worker.free)
  decrement :
      s.worker tid ≡ Worker.dec
      → Step s tid (record (at s tid Worker.idle) {
        lock = record (s.lock) { spin = (s.lock.spin + 2 ^ 32 - 1) % 2 ^ 32 };
        held = update s.held tid (s.held tid - 1);
      })
  store_null :
      s.worker tid ≡ Worker.free
      → Step s tid (record (at s tid Worker.release) { lock = record (s.lock) { owner_id = 0 } })
  store_zero :
      s.worker tid ≡ Worker.release
      → Step s tid (record (at s tid Worker.idle) {
        lock = record (s.lock) { spin = 0 };
        held = update s.held tid 0;
      })
  begin_change :
      (new_owner : ℕ)
      → s.worker tid ≡ Worker.idle
      → s.lock.owner_id ≡ tid
      → new_owner ≢ 0
      → Step s tid (at s tid (Worker.give new_owner))
  change_owner :
      (new_owner : ℕ)
      → s.worker tid ≡ Worker.give new_owner
      → Step s tid (record (at s tid Worker.idle) {
        lock = record (s.lock) { owner_id = new_owner };
        held = update (update s.held tid 0) new_owner (s.held tid);
      })

pub data Reach : System → Type 0 where
  here : Reach start
  next : {s t : System} (tid : ℕ) → Reach s → tid ≢ 0 → Step s tid t → Reach t
