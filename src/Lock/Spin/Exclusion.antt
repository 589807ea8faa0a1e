-- ===== src/Lock/Spin/Exclusion.antt =====
-- Mutual exclusion of `SpinT`, and its assertions.
use temp_data_structure_benc.Prelude.{ℕ, ◌<◌, ◌≡◌, ◌≢◌, ◌↔◌, inl, inr, update, refl, arith, ap, sym}
use native.Mathlib.Decide.{ℕ_discrete}
use temp_data_structure_benc.Lock.Spin.Places.{
  has, IsSound, IsSound-cases, Inv, start-Inv, here_Is, work-Inv, move-Inv,
}
use temp_data_structure_benc.Lock.Spin.{
  Caller, Worker, System, when_true, when_false, Step, begin_lock, begin_try_lock, begin_attempts,
  not_owned, deadlock, next_attempt, give_up, try_not_owned, try_deadlock, cas_succeeds, cas_fails,
  store_owner, wait_more, wait_ends, locked, not_locked, begin_unlock, is_taken, not_taken,
  is_owner, not_owner, store_null, store_zero, Reach, here, next,
}

module _ {s : System} {i : ℕ} (v : Inv s) (nz : i ≢ 0) where
  when_false-Inv :
      (c : Caller)
      → s.worker i ≡ Worker.cas c
      → Inv (record s { worker = update s.worker i (when_false c) })
  when_false-Inv Caller.client e = move-Inv v nz _ Worker.idle e refl (λ h. h)
  when_false-Inv (Caller.attempts n) e = move-Inv v nz _ (Worker.attempt n) e refl (λ h. h)
  when_false-Inv Caller.locking e = move-Inv v nz _ Worker.wait e refl (λ h. h)

  store_owner-Inv :
      (c : Caller)
      → s.worker i ≡ Worker.be_owner c
      → Inv (record s {
        worker = update s.worker i (when_true c);
        lock = record (s.lock) { dbg_owner_id = i };
      })
  store_owner-Inv c e =
      work-Inv v nz (when_true c) (record (s.lock) { dbg_owner_id = i }) (owner c)
        (inl (omega (arith, ap has e))) (inl refl) (λ _. taken c)
    where
      owner : (c' : Caller) → IsSound (record (s.lock) { dbg_owner_id = i }) i (when_true c')
      owner Caller.client = ((here_Is v nz (Worker.be_owner c) e).0, refl)
      owner (Caller.attempts n) = ((here_Is v nz (Worker.be_owner c) e).0, refl)
      owner Caller.locking = ((here_Is v nz (Worker.be_owner c) e).0, refl)

      taken : (c' : Caller) → 0 < has (when_true c')
      taken Caller.client = omega arith
      taken (Caller.attempts n) = omega arith
      taken Caller.locking = omega arith

Step-Inv : {s : System} (i : ℕ) {t : System} → i ≢ 0 → Step s i t → Inv s → Inv t
Step-Inv i nz (begin_lock e) v = move-Inv v nz _ Worker.begin e refl (λ h. h)
Step-Inv i nz (begin_try_lock e) v = move-Inv v nz _ (Worker.try_lock Caller.client) e refl (λ h. h)
Step-Inv i nz (begin_attempts n e) v = move-Inv v nz _ (Worker.attempt n) e refl (λ h. h)
Step-Inv i nz (not_owned e f) v = move-Inv v nz _ (Worker.try_lock Caller.locking) e refl (λ h. h)
Step-Inv i nz (deadlock e f) v = absurd (here_Is v nz Worker.begin e f)
Step-Inv i nz (next_attempt n e) v =
    move-Inv v nz _ (Worker.try_lock (Caller.attempts n)) e refl (λ h. h)
Step-Inv i nz (give_up e) v = move-Inv v nz _ Worker.idle e refl (λ h. h)
Step-Inv i nz (try_not_owned c e f) v = move-Inv v nz _ (Worker.cas c) e refl (λ h. h)
Step-Inv i nz (try_deadlock c e f) v = absurd (here_Is v nz (Worker.try_lock c) e f)
Step-Inv {s} i nz (cas_succeeds c e f) v =
    work-Inv v nz (Worker.be_owner c) (record (s.lock) { spin = 1 })
      (refl, here_Is v nz (Worker.cas c) e) (inr f) (inr (inr refl)) (λ _. omega arith)
Step-Inv i nz (cas_fails c e f) v = when_false-Inv v nz c e
Step-Inv i nz (store_owner c e) v = store_owner-Inv v nz c e
Step-Inv i nz (wait_more e f) v = v
Step-Inv i nz (wait_ends e f) v = move-Inv v nz _ (Worker.try_lock Caller.locking) e refl (λ h. h)
Step-Inv i nz (locked e f) v = move-Inv v nz _ Worker.owns e refl (λ h. h)
Step-Inv i nz (not_locked e f) v = absurd (f (here_Is v nz Worker.finish e).1)
Step-Inv i nz (begin_unlock e) v = move-Inv v nz _ Worker.check_spin e refl (λ h. h)
Step-Inv i nz (is_taken e f) v = move-Inv v nz _ Worker.check_owner e refl (λ h. h)
Step-Inv i nz (not_taken e f) v = absurd (omega (arith, (here_Is v nz Worker.check_spin e).0))
Step-Inv i nz (is_owner e f) v = move-Inv v nz _ Worker.free e refl (λ h. h)
Step-Inv i nz (not_owner e f) v = absurd (f (here_Is v nz Worker.check_owner e).1)
Step-Inv {s} i nz (store_null e) v =
    work-Inv v nz Worker.release (record (s.lock) { dbg_owner_id = 0 })
      ((here_Is v nz Worker.free e).0, (λ z. nz (sym z))) (inl (omega (arith, ap has e)))
      (inr (inl refl)) (λ _. omega arith)
Step-Inv {s} i nz (store_zero e) v =
    work-Inv v nz Worker.idle (record (s.lock) { spin = 0 }) (here_Is v nz Worker.release e).1
      (inl (omega (arith, ap has e))) (inr (inr refl)) (λ a. absurd (a refl))

Reach-Inv : {s : System} → Reach s → Inv s
Reach-Inv here = start-Inv
Reach-Inv (next i r nz st) = Step-Inv i nz st (Reach-Inv r)

module _ {s : System} (r : Reach s) where
  -- In every reachable state at most one thread has the lock, however its calls interleave with those
  -- of the others.
  pub one_has : (t u : ℕ) → 0 < has (s.worker t) → t ≢ u → has (s.worker u) ≡ 0
  one_has t u h ne = ground (arith, (Reach-Inv r).alone t u h)

  -- In no reachable state has an assertion of `lock`, `tryLock` or `unlock` failed, where a thread
  -- locks only while it does not have the lock and unlocks only while it has it.
  pub assertions_hold : (t : ℕ) → t ≢ 0 → s.worker t ≢ Worker.aborted
  assertions_hold t nz e = here_Is (Reach-Inv r) nz Worker.aborted e

  -- In every reachable state `m_spin` is 0 exactly if no thread has the lock, and 1 otherwise.
  pub spin_taken :
      ((s.lock.spin ≡ 0) ↔ ((t : ℕ) → t ≢ 0 → has (s.worker t) ≡ 0))
      × ((t : ℕ) → t ≢ 0 → 0 < has (s.worker t) → s.lock.spin ≡ 1)
  spin_taken =
      let v = Reach-Inv r in
      (
        (
          (λ z t nz. ground (arith, IsSound-cases s.lock t (s.worker t) (v.sound t nz))),
          (λ none_has. elim (ℕ_discrete s.lock.spin 0) [
            | yes e ↦ e
            | no ne ↦
                let (t, h) = v.taken ne in
                absurd (elim (ℕ_discrete t 0) [
                  | yes z ↦ omega (arith, v.nobody, ap (λ u. has (s.worker u)) z)
                  | no nz ↦ omega (arith, none_has t nz)
                ])
          ]),
        ),
        (λ t nz h. ground (arith, IsSound-cases s.lock t (s.worker t) (v.sound t nz))),
      )
