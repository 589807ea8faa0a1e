-- ===== src/Lock/Reentrant/Exclusion.antt =====
-- Mutual exclusion of `ReentrantSpinT`.
use temp_data_structure_benc.Prelude.{
  ℕ, zero, suc, ◌+◌, ◌-◌, ◌<◌, ◌%◌, ◌^◌, ◌≡◌, ◌≢◌, ◌↔◌, inr, refl, arith,
}
use native.Mathlib.Decide.{ℕ_discrete}
use temp_data_structure_benc.Lock.Reentrant.Places.{}
use temp_data_structure_benc.Lock.Reentrant.{
  Worker, System, Step, lock_owned, begin_lock, begin_try_lock, cas_succeeds, cas_fails, wait_more,
  wait_ends, attempt_succeeds, attempt_fails, give_up, store_owner, increment, unlock_foreign,
  begin_unlock, check_inner, check_last, decrement, store_null, store_zero, begin_change,
  change_owner, Reach, here, next,
}
use temp_data_structure_benc.Lock.Reentrant.Moves.{
  Inv, start-Inv, free_held, held_spin, here_Is, move-Inv, work-Inv, held-Inv, cas-Inv, change-Inv,
  others_held,
}

Step-Inv : {s : System} (i : ℕ) {t : System} → i ≢ 0 → Step s i t → Inv s → Inv t
Step-Inv {s} i nz (lock_owned e f g) v =
    let own = here_Is v nz Worker.idle e in move-Inv v nz Worker.inc (ground arith)
Step-Inv {s} i nz (begin_lock e f) v = move-Inv v nz Worker.acquire (here_Is v nz Worker.idle e)
Step-Inv {s} i nz (begin_try_lock n e f) v =
    move-Inv v nz (Worker.attempt n) (here_Is v nz Worker.idle e)
Step-Inv {s} i nz (cas_succeeds e f) v = cas-Inv v nz f
Step-Inv {s} i nz (cas_fails e f) v = move-Inv v nz Worker.wait (here_Is v nz Worker.acquire e)
Step-Inv {s} i nz (wait_more e f) v = v
Step-Inv {s} i nz (wait_ends e f) v = move-Inv v nz Worker.acquire (here_Is v nz Worker.wait e)
Step-Inv {s} i nz (attempt_succeeds n e f) v = cas-Inv v nz f
Step-Inv {s} i nz (attempt_fails n e f) v =
    move-Inv v nz (Worker.attempt n) (here_Is v nz (Worker.attempt (suc n)) e)
Step-Inv {s} i nz (give_up e) v = move-Inv v nz Worker.idle (here_Is v nz (Worker.attempt zero) e)
Step-Inv {s} i nz (store_owner e) v =
    let own = here_Is v nz Worker.be_owner e in
    work-Inv v nz Worker.idle (record (s.lock) { owner_id = i }) s.held (ground arith)
      (λ t ne. refl) (others_held v nz (omega arith)) (λ t ne t_nz. ne) (λ a. omega arith)
      (omega (arith, v.small))
Step-Inv {s} i nz (increment e) v =
    let own = here_Is v nz Worker.inc e in
    held-Inv v nz Worker.idle (record (s.lock) { spin = (s.lock.spin + 1) % 2 ^ 32 }) (s.held i + 1)
      (omega arith) (ground arith) (inr refl) (λ a. omega arith) (omega (arith, v.small))
Step-Inv {s} i nz (unlock_foreign e f) v = v
Step-Inv {s} i nz (begin_unlock e f) v =
    let own = here_Is v nz Worker.idle e in move-Inv v nz Worker.check (ground arith)
Step-Inv {s} i nz (check_inner e f) v =
    let own = here_Is v nz Worker.check e in move-Inv v nz Worker.dec (ground arith)
Step-Inv {s} i nz (check_last e f) v =
    let own = here_Is v nz Worker.check e in move-Inv v nz Worker.free (ground arith)
Step-Inv {s} i nz (decrement e) v =
    let own = here_Is v nz Worker.dec e in
    held-Inv v nz Worker.idle (record (s.lock) { spin = (s.lock.spin + 2 ^ 32 - 1) % 2 ^ 32 })
      (s.held i - 1) (omega arith) (ground (arith, v.small)) (inr refl) (λ a. omega arith)
      (omega (arith, v.small))
Step-Inv {s} i nz (store_null e) v =
    let own = here_Is v nz Worker.free e in
    work-Inv v nz Worker.release (record (s.lock) { owner_id = 0 }) s.held (ground arith)
      (λ t ne. refl) (others_held v nz (omega arith)) (λ t ne t_nz. omega arith) (λ a. omega arith)
      (omega (arith, v.small))
Step-Inv {s} i nz (store_zero e) v =
    let own = here_Is v nz Worker.release e in
    held-Inv v nz Worker.idle (record (s.lock) { spin = 0 }) 0 (omega arith) (ground arith)
      (inr refl) (λ a. absurd (a refl)) (omega arith)
Step-Inv {s} i nz (begin_change n e f g) v =
    let own = here_Is v nz Worker.idle e in move-Inv v nz (Worker.give n) (ground arith)
Step-Inv {s} i nz (change_owner n e) v = change-Inv v nz n (here_Is v nz (Worker.give n) e)

Reach-Inv : {s : System} → Reach s → Inv s
Reach-Inv here = start-Inv
Reach-Inv (next i r nz st) = Step-Inv i nz st (Reach-Inv r)

module _ {s : System} (r : Reach s) where
  -- In every reachable state at most one thread has the lock, however its recursive calls, its
  -- attempts and its changes of owner interleave with those of the others.
  pub mutual_exclusion : (t u : ℕ) → 0 < s.held t → t ≢ u → s.held u ≡ 0
  mutual_exclusion t u h ne = ground (arith, (Reach-Inv r).alone t u h)

  -- In every reachable state `m_spin` is the number of times that the thread that has the lock has
  -- locked it, and 0 exactly if no thread has the lock.
  pub spin_counts :
      ((t : ℕ) → 0 < s.held t → s.lock.spin ≡ s.held t)
      × ((s.lock.spin ≡ 0) ↔ ((t : ℕ) → s.held t ≡ 0))
  spin_counts =
      let v = Reach-Inv r in
      (
        (λ t h. held_spin v h),
        (
          free_held v,
          (λ none_held. elim (ℕ_discrete s.lock.spin 0) [
            | yes e ↦ e
            | no ne ↦ let (t, h) = v.taken ne in absurd (omega (arith, none_held t))
          ]),
        ),
      )

  -- In every reachable state the test of `unlock` by a thread between two calls tells whether it
  -- has the lock.
  pub owner_iff_held :
      (t : ℕ) → t ≢ 0 → s.worker t ≡ Worker.idle → (s.lock.owner_id ≡ t) ↔ (0 < s.held t)
  owner_iff_held t nz e = let own = here_Is (Reach-Inv r) nz Worker.idle e in ground arith
