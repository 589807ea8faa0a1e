-- ===== src/Lock/Spin/Places.antt =====
-- Where a thread stands in `SpinT`, what that says of the lock, and what each step keeps.
use temp_data_structure_benc.Prelude.{
  ℕ, ◌<◌, ◌≡◌, ◌≢◌, ◌⊎◌, refl, ap, ◌∙◌, sym, arith, update, update_self, update_ne,
}
use mathlib.Core.Path.{subst}
use native.Mathlib.Decide.{ℕ_discrete}
use temp_data_structure_benc.Lock.Spin.{Spin, Worker, System, start, at}

-- 1 for a thread that has the lock: from the compare and swap to the store of 0.
abbrev pub has : Worker → ℕ
has (Worker.be_owner c) = 1
has Worker.finish = 1
has Worker.owns = 1
has Worker.check_spin = 1
has Worker.check_owner = 1
has Worker.free = 1
has Worker.release = 1
has _ = 0

module _ (l : Spin) (tid : ℕ) where
  abbrev pub IsOwner : Type 0
  IsOwner = (l.spin ≡ 1) × (l.dbg_owner_id ≡ tid)

  -- What a thread's place says of the lock.
  abbrev pub IsSound : Worker → Type 0
  IsSound (Worker.be_owner c) = (l.spin ≡ 1) × (l.dbg_owner_id ≢ tid)
  IsSound Worker.finish = IsOwner
  IsSound Worker.owns = IsOwner
  IsSound Worker.check_spin = IsOwner
  IsSound Worker.check_owner = IsOwner
  IsSound Worker.free = IsOwner
  IsSound Worker.release = (l.spin ≡ 1) × (l.dbg_owner_id ≢ tid)
  IsSound Worker.aborted = ⊥
  IsSound _ = l.dbg_owner_id ≢ tid

  pub IsSound-cases :
      (w : Worker)
      → IsSound w
      → ((has w ≡ 0) × (l.dbg_owner_id ≢ tid)) ⊎ ((has w ≡ 1) × (l.spin ≡ 1))
  IsSound-cases Worker.idle h = ground arith
  IsSound-cases Worker.begin h = ground arith
  IsSound-cases (Worker.attempt n) h = ground arith
  IsSound-cases (Worker.try_lock c) h = ground arith
  IsSound-cases (Worker.cas c) h = ground arith
  IsSound-cases (Worker.be_owner c) h = ground arith
  IsSound-cases Worker.wait h = ground arith
  IsSound-cases Worker.finish h = ground arith
  IsSound-cases Worker.owns h = ground arith
  IsSound-cases Worker.check_spin h = ground arith
  IsSound-cases Worker.check_owner h = ground arith
  IsSound-cases Worker.free h = ground arith
  IsSound-cases Worker.release h = ground arith
  IsSound-cases Worker.aborted h = absurd h

-- The place of a thread that does not have the lock stays sound while another works on the lock.
IsSound-away :
    (l l' : Spin) (tid : ℕ) (w : Worker)
    → IsSound l tid w
    → has w ≡ 0
    → l'.dbg_owner_id ≢ tid
    → IsSound l' tid w
IsSound-away l l' tid Worker.idle h e f = f
IsSound-away l l' tid Worker.begin h e f = f
IsSound-away l l' tid (Worker.attempt n) h e f = f
IsSound-away l l' tid (Worker.try_lock c) h e f = f
IsSound-away l l' tid (Worker.cas c) h e f = f
IsSound-away l l' tid (Worker.be_owner c) h e f = absurd (omega (arith, e))
IsSound-away l l' tid Worker.wait h e f = f
IsSound-away l l' tid Worker.finish h e f = absurd (omega (arith, e))
IsSound-away l l' tid Worker.owns h e f = absurd (omega (arith, e))
IsSound-away l l' tid Worker.check_spin h e f = absurd (omega (arith, e))
IsSound-away l l' tid Worker.check_owner h e f = absurd (omega (arith, e))
IsSound-away l l' tid Worker.free h e f = absurd (omega (arith, e))
IsSound-away l l' tid Worker.release h e f = absurd (omega (arith, e))
IsSound-away l l' tid Worker.aborted h e f = absurd h

pub record Inv (s : System) : Type 0 where
  pub sound : (t : ℕ) → t ≢ 0 → IsSound s.lock t (s.worker t)
  pub alone : (t u : ℕ) → 0 < has (s.worker t) → 0 < has (s.worker u) → t ≡ u
  pub taken : s.lock.spin ≢ 0 → (t : ℕ) × (0 < has (s.worker t))
  pub nobody : has (s.worker 0) ≡ 0

pub start-Inv : Inv start
start-Inv = record {
  sound = λ t nz. omega arith;
  alone = λ t u h k. absurd (omega arith);
  taken = λ h. absurd (h refl);
  nobody = refl;
}

-- A thread that has the lock, or that finds it free, is alone with it.
module _ {s : System} {i : ℕ} (v : Inv s) (nz : i ≢ 0) where
  cases :
      (t : ℕ)
      → t ≢ 0
      → ((has (s.worker t) ≡ 0) × (s.lock.dbg_owner_id ≢ t))
        ⊎ ((has (s.worker t) ≡ 1) × (s.lock.spin ≡ 1))
  cases t t_nz = IsSound-cases s.lock t (s.worker t) (v.sound t t_nz)

  -- What the thread's place says, where it is known.
  pub here_Is : (w : Worker) → s.worker i ≡ w → IsSound s.lock i w
  here_Is w e = subst (IsSound s.lock i) e (v.sound i nz)

  -- A step of a thread that has the lock, or that finds it free.
  pub work-Inv :
      (w : Worker) (l : Spin)
      → IsSound l i w
      → (0 < has (s.worker i)) ⊎ (s.lock.spin ≡ 0)
      → (l.dbg_owner_id ≡ i) ⊎ (l.dbg_owner_id ≡ 0) ⊎ (l.dbg_owner_id ≡ s.lock.dbg_owner_id)
      → (l.spin ≢ 0 → 0 < has w)
      → Inv (record (at s i w) { lock = l })
  work-Inv w l own mine owner taken = record {
    sound = λ t t_nz. elim (ℕ_discrete i t) [
      | yes e ↦
          subst (λ u. IsSound l u (update s.worker i w u)) e (rw (update_self s.worker i w) own)
      | no ne ↦ rw (update_ne s.worker w ne) (
          IsSound-away s.lock l t (s.worker t) (v.sound t t_nz) (others t ne)
            (ground (arith, others t ne, cases t t_nz, owner)))
    ];
    alone = λ t u a b. only t a ∙ sym (only u b);
    taken = λ a. (i, rw (update_self s.worker i w) (taken a));
    nobody = rw (update_ne s.worker w nz) v.nobody;
  }
    where
      others : (t : ℕ) → i ≢ t → has (s.worker t) ≡ 0
      others t ne = elim (ℕ_discrete t 0) [
        | yes z ↦ rw z v.nobody
        | no t_nz ↦ ground (arith, v.alone i t, cases t t_nz, mine)
      ]

      only : (t : ℕ) → 0 < has (update s.worker i w t) → t ≡ i
      only t a = elim (ℕ_discrete i t) [
        | yes e ↦ sym e
        | no ne ↦ absurd (omega (arith, a, others t ne, ap has (update_ne s.worker w ne)))
      ]

  -- A step that leaves the lock, and who has it, alone.
  pub move-Inv :
      (from w : Worker)
      → s.worker i ≡ from
      → has w ≡ has from
      → (IsSound s.lock i from → IsSound s.lock i w)
      → Inv (at s i w)
  move-Inv from w e same keeps = record {
    sound = λ t t_nz. elim (ℕ_discrete i t) [
      | yes it ↦
          subst (λ u. IsSound s.lock u (update s.worker i w u)) it
            (rw (update_self s.worker i w) (keeps (here_Is from e)))
      | no ne ↦ rw (update_ne s.worker w ne) (v.sound t t_nz)
    ];
    alone = λ t u a b. v.alone t u (rw (sym (still t)) a) (rw (sym (still u)) b);
    taken = λ a. let (t, h) = v.taken a in (t, rw (still t) h);
    nobody = still 0 ∙ v.nobody;
  }
    where
      still : (t : ℕ) → has (update s.worker i w t) ≡ has (s.worker t)
      still t = elim (ℕ_discrete i t) [
        | yes it ↦
            subst (λ u. has (update s.worker i w u) ≡ has (s.worker u)) it
              (ap has (update_self s.worker i w) ∙ same ∙ ap has (sym e))
        | no ne ↦ ap has (update_ne s.worker w ne)
      ]
