-- ===== src/Lock/Reentrant/Tests.antt =====
-- `ReentrantSpinT` on concrete inputs.
use temp_data_structure_benc.Prelude.{ℕ, ◌≡◌, ◌↔◌, ◌<◌, refl, arith}
use temp_data_structure_benc.Lock.Reentrant.{
  Worker, System, Reach, here, next, begin_lock, cas_succeeds, store_owner, lock_owned, increment,
  cas_fails,
}
use temp_data_structure_benc.Lock.Reentrant.Exclusion.{mutual_exclusion, spin_counts}

-- Thread 1 has locked twice, and thread 2 waits.
abbrev twice : (s : System) × Reach s
twice = (
  _,
  next 2
      (next 2
        (next 1
          (next 1
            (next 1
              (next 1 (next 1 here (omega arith) (begin_lock refl (omega arith))) (omega arith)
                (cas_succeeds refl refl))
              (omega arith) (store_owner refl))
            (omega arith) (lock_owned refl refl (omega arith)))
          (omega arith) (increment refl))
        (omega arith) (begin_lock refl (omega arith)))
      (omega arith) (cas_fails refl (omega arith)),
)

twice_state : (twice.0.lock.spin ≡ 2) × (twice.0.held 1 ≡ 2) × (twice.0.worker 2 ≡ Worker.wait)
twice_state = (refl, refl, refl)

mutual_exclusion_example : twice.0.held 2 ≡ 0
mutual_exclusion_example = mutual_exclusion twice.1 1 2 (omega arith) (omega arith)

spin_counts_example :
    ((t : ℕ) → 0 < twice.0.held t → twice.0.lock.spin ≡ twice.0.held t)
    × ((twice.0.lock.spin ≡ 0) ↔ ((t : ℕ) → twice.0.held t ≡ 0))
spin_counts_example = spin_counts twice.1
