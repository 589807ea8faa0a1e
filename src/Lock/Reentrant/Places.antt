-- ===== src/Lock/Reentrant/Places.antt =====
-- Where a thread stands in `ReentrantSpinT`, and what that says of the lock.
use temp_data_structure_benc.Prelude.{ℕ, ◌+◌, ◌<◌, ◌^◌, ◌≡◌, ◌≢◌, ◌⊎◌, arith}
use temp_data_structure_benc.Lock.Reentrant.{ReentrantSpin, Worker}

module _ (l : ReentrantSpin) (tid held : ℕ) where
  -- The owner, or a thread that does not have the lock.
  abbrev pub IsSettled : Type 0
  IsSettled =
      ((l.owner_id ≢ tid) × (held ≡ 0)) ⊎ ((l.owner_id ≡ tid) × (l.spin ≡ held) × (0 < held))

  -- What a thread's place says of the lock.
  abbrev pub IsSound : Worker → Type 0
  IsSound Worker.idle = IsSettled
  IsSound Worker.acquire = IsSettled
  IsSound Worker.wait = IsSettled
  IsSound (Worker.attempt n) = IsSettled
  IsSound Worker.be_owner = (l.owner_id ≢ tid) × (l.spin ≡ 1) × (held ≡ 1)
  IsSound Worker.inc = (l.owner_id ≡ tid) × (l.spin ≡ held) × (0 < held) × (held + 1 < 2 ^ 32)
  IsSound Worker.check = (l.owner_id ≡ tid) × (l.spin ≡ held) × (0 < held)
  IsSound Worker.dec = (l.owner_id ≡ tid) × (l.spin ≡ held) × (1 < held)
  IsSound Worker.free = (l.owner_id ≡ tid) × (l.spin ≡ 1) × (held ≡ 1)
  IsSound Worker.release = (l.owner_id ≢ tid) × (l.spin ≡ 1) × (held ≡ 1)
  IsSound (Worker.give n) = (l.owner_id ≡ tid) × (l.spin ≡ held) × (0 < held) × (n ≢ 0)

  -- A thread has the lock as often as m_spin counts, or not at all.
  pub IsSound-cases :
      (w : Worker) → IsSound w → ((held ≡ 0) × (l.owner_id ≢ tid)) ⊎ ((0 < held) × (l.spin ≡ held))
  IsSound-cases Worker.idle h = ground arith
  IsSound-cases Worker.acquire h = ground arith
  IsSound-cases Worker.wait h = ground arith
  IsSound-cases (Worker.attempt n) h = ground arith
  IsSound-cases Worker.be_owner h = ground arith
  IsSound-cases Worker.inc h = ground arith
  IsSound-cases Worker.check h = ground arith
  IsSound-cases Worker.dec h = ground arith
  IsSound-cases Worker.free h = ground arith
  IsSound-cases Worker.release h = ground arith
  IsSound-cases (Worker.give n) h = ground arith

-- The place of a thread that does not have the lock stays sound while others work on the lock.
pub IsSound-away :
    (l l' : ReentrantSpin) (tid held : ℕ) (w : Worker)
    → IsSound l tid held w
    → held ≡ 0
    → l'.owner_id ≢ tid
    → IsSound l' tid held w
IsSound-away l l' tid held Worker.idle h e f = ground arith
IsSound-away l l' tid held Worker.acquire h e f = ground arith
IsSound-away l l' tid held Worker.wait h e f = ground arith
IsSound-away l l' tid held (Worker.attempt n) h e f = ground arith
IsSound-away l l' tid held Worker.be_owner h e f = ground arith
IsSound-away l l' tid held Worker.inc h e f = ground arith
IsSound-away l l' tid held Worker.check h e f = ground arith
IsSound-away l l' tid held Worker.dec h e f = ground arith
IsSound-away l l' tid held Worker.free h e f = ground arith
IsSound-away l l' tid held Worker.release h e f = ground arith
IsSound-away l l' tid held (Worker.give n) h e f = ground arith

-- The place of a thread that is made the owner by another.
pub IsSound-given :
    (l l' : ReentrantSpin) (tid held given : ℕ) (w : Worker)
    → IsSound l tid held w
    → held ≡ 0
    → l'.owner_id ≡ tid
    → (l'.spin ≡ given) × (0 < given)
    → IsSound l' tid given w
IsSound-given l l' tid held given Worker.idle h e f k = ground arith
IsSound-given l l' tid held given Worker.acquire h e f k = ground arith
IsSound-given l l' tid held given Worker.wait h e f k = ground arith
IsSound-given l l' tid held given (Worker.attempt n) h e f k = ground arith
IsSound-given l l' tid held given Worker.be_owner h e f k = ground arith
IsSound-given l l' tid held given Worker.inc h e f k = ground arith
IsSound-given l l' tid held given Worker.check h e f k = ground arith
IsSound-given l l' tid held given Worker.dec h e f k = ground arith
IsSound-given l l' tid held given Worker.free h e f k = ground arith
IsSound-given l l' tid held given Worker.release h e f k = ground arith
IsSound-given l l' tid held given (Worker.give n) h e f k = ground arith
