-- ===== src/Lock/Spin/Tests.antt =====
-- `SpinT` on concrete inputs.
use temp_data_structure_benc.Prelude.{◌≡◌, ◌≢◌, refl, arith}
use temp_data_structure_benc.Lock.Spin.{
  Caller, Worker, System, Reach, here, next, begin_lock, not_owned, try_not_owned, cas_succeeds,
  store_owner, locked, begin_try_lock, cas_fails,
}
use temp_data_structure_benc.Lock.Spin.Places.{has}
use temp_data_structure_benc.Lock.Spin.Exclusion.{one_has, assertions_hold}

-- Thread 1 has locked, and thread 2 has tried to.
abbrev one_locked : (s : System) × Reach s
one_locked = (
  _,
  next 1
      (next 1
        (next 1
          (next 1
            (next 1 (next 1 here (omega arith) (begin_lock refl)) (omega arith)
              (not_owned refl (omega arith)))
            (omega arith) (try_not_owned Caller.locking refl (omega arith)))
          (omega arith) (cas_succeeds Caller.locking refl refl))
        (omega arith) (store_owner Caller.locking refl))
      (omega arith) (locked refl refl),
)

abbrev two_tries : (s : System) × Reach s
two_tries = (
  _,
  next 2
      (next 2 (next 2 one_locked.1 (omega arith) (begin_try_lock refl)) (omega arith)
        (try_not_owned Caller.client refl (omega arith)))
      (omega arith) (cas_fails Caller.client refl (omega arith)),
)

two_tries_state :
    (two_tries.0.lock.spin ≡ 1)
    × (two_tries.0.worker 1 ≡ Worker.owns)
    × (two_tries.0.worker 2 ≡ Worker.idle)
two_tries_state = (refl, refl, refl)

one_has_example : has (two_tries.0.worker 2) ≡ 0
one_has_example = one_has two_tries.1 1 2 (omega arith) (omega arith)

assertions_hold_example : two_tries.0.worker 2 ≢ Worker.aborted
assertions_hold_example = assertions_hold two_tries.1 2 (omega arith)
