-- ===== src/Lock/Reentrant/Moves.antt =====
-- The invariant of `ReentrantSpinT`, and the kinds of steps that keep it.
use temp_data_structure_benc.Prelude.{
  ℕ, ◌<◌, ◌^◌, ◌≡◌, ◌≢◌, ◌⊎◌, inl, refl, sym, ap, ◌∙◌, Array, arith, update, update_self, update_ne,
}
use mathlib.Core.Path.{subst}
use native.Mathlib.Decide.{ℕ_discrete}
use temp_data_structure_benc.Lock.Reentrant.Places.{
  IsSound, IsSound-cases, IsSound-away, IsSound-given,
}
use temp_data_structure_benc.Lock.Reentrant.{ReentrantSpin, Worker, System, start, at}

pub record Inv (s : System) : Type 0 where
  pub sound : (t : ℕ) → t ≢ 0 → IsSound s.lock t (s.held t) (s.worker t)
  pub alone : (t u : ℕ) → 0 < s.held t → 0 < s.held u → t ≡ u
  pub taken : s.lock.spin ≢ 0 → (t : ℕ) × (0 < s.held t)
  pub nobody : s.held 0 ≡ 0
  pub small : s.lock.spin < 2 ^ 32

pub start-Inv : Inv start
start-Inv = record {
  sound = λ t nz. inl (sym_ne nz, refl);
  alone = λ t u h k. absurd (omega arith);
  taken = λ h. absurd (h refl);
  nobody = refl;
  small = omega arith;
}
  where
    sym_ne : {t : ℕ} → t ≢ 0 → 0 ≢ t
    sym_ne h = omega arith

module _ {s : System} (v : Inv s) where
  pub free_held : s.lock.spin ≡ 0 → (t : ℕ) → s.held t ≡ 0
  free_held e t = elim (ℕ_discrete t 0) [
    | yes z ↦ rw z v.nobody
    | no t_nz ↦ ground (arith, IsSound-cases s.lock t (s.held t) (s.worker t) (v.sound t t_nz))
  ]

  pub held_spin : {t : ℕ} → 0 < s.held t → s.lock.spin ≡ s.held t
  held_spin {t} h = elim (ℕ_discrete t 0) [
    | yes z ↦ absurd (omega (arith, v.nobody, ap s.held z))
    | no t_nz ↦ ground (arith, IsSound-cases s.lock t (s.held t) (s.worker t) (v.sound t t_nz))
  ]

module _ {s : System} {i : ℕ} (v : Inv s) (nz : i ≢ 0) where
  -- A step that leaves the lock alone.
  pub move-Inv : (w : Worker) → IsSound s.lock i (s.held i) w → Inv (at s i w)
  move-Inv w own = record {
    sound = λ t t_nz. elim (ℕ_discrete i t) [
      | yes e ↦
          subst (λ u. IsSound s.lock u (s.held u) (update s.worker i w u)) e
            (rw (update_self s.worker i w) own)
      | no ne ↦ rw (update_ne s.worker w ne) (v.sound t t_nz)
    ];
    alone = v.alone;
    taken = v.taken;
    nobody = v.nobody;
    small = v.small;
  }

  -- A step of the only thread that can have the lock.
  pub work-Inv :
      (w : Worker) (l : ReentrantSpin) (held : Array ℕ)
      → IsSound l i (held i) w
      → ((t : ℕ) → i ≢ t → held t ≡ s.held t)
      → ((t : ℕ) → i ≢ t → s.held t ≡ 0)
      → ((t : ℕ) → i ≢ t → t ≢ 0 → l.owner_id ≢ t)
      → (l.spin ≢ 0 → 0 < held i)
      → l.spin < 2 ^ 32
      → Inv (record (at s i w) { lock = l; held = held })
  work-Inv w l held own same others owner taken small = record {
    sound = λ t t_nz. elim (ℕ_discrete i t) [
      | yes e ↦
          subst (λ u. IsSound l u (held u) (update s.worker i w u)) e
            (rw (update_self s.worker i w) own)
      | no ne ↦
          rw (update_ne s.worker w ne, same t ne)
            (IsSound-away s.lock l t (s.held t) (s.worker t) (v.sound t t_nz) (others t ne)
              (owner t ne t_nz))
    ];
    alone = λ t u a b. ground (arith, others t, others u, same t, same u);
    taken = λ a. (i, taken a);
    nobody = same 0 nz ∙ v.nobody;
    small = small;
  }

  -- The other threads do not have a lock that this one has.
  pub others_held : 0 < s.held i → (t : ℕ) → i ≢ t → s.held t ≡ 0
  others_held h t ne = ground (arith, v.alone i t h)

  pub others_owner : 0 < s.held i → (t : ℕ) → i ≢ t → t ≢ 0 → s.lock.owner_id ≢ t
  others_owner h t ne t_nz =
      ground
        (arith, others_held h t ne, IsSound-cases s.lock t (s.held t) (s.worker t) (v.sound t t_nz))

  pub free_owner : s.lock.spin ≡ 0 → (t : ℕ) → t ≢ 0 → s.lock.owner_id ≢ t
  free_owner e t t_nz =
      ground
        (arith, free_held v e t, IsSound-cases s.lock t (s.held t) (s.worker t) (v.sound t t_nz))

  -- What the thread's place says, where it is known.
  pub here_Is : (w : Worker) → s.worker i ≡ w → IsSound s.lock i (s.held i) w
  here_Is w e = subst (IsSound s.lock i (s.held i)) e (v.sound i nz)

  pub cas-Inv :
      s.lock.spin ≡ 0
      → Inv (record (at s i Worker.be_owner) {
        lock = record (s.lock) { spin = 1 };
        held = update s.held i 1;
      })
  cas-Inv e =
      work-Inv Worker.be_owner (record (s.lock) { spin = 1 }) (update s.held i 1)
        (rw (update_self s.held i 1) (free_owner e i nz, refl, refl))
        (λ t ne. update_ne s.held 1 ne) (λ t ne. free_held v e t) (λ t ne. free_owner e t)
        (λ a. rw (update_self s.held i 1) (omega arith)) (omega arith)

  -- A step of the thread that has the lock, to `h` times.
  pub held-Inv :
      (w : Worker) (l : ReentrantSpin) (h : ℕ)
      → 0 < s.held i
      → IsSound l i h w
      → (l.owner_id ≡ i) ⊎ (l.owner_id ≡ s.lock.owner_id)
      → (l.spin ≢ 0 → 0 < h)
      → l.spin < 2 ^ 32
      → Inv (record (at s i w) { lock = l; held = update s.held i h })
  held-Inv w l h k own owner taken small =
      work-Inv w l (update s.held i h) (rw (update_self s.held i h) own)
        (λ t ne. update_ne s.held h ne) (others_held k)
        (λ t ne t_nz. ground (arith, others_owner k t ne t_nz))
        (λ a. rw (update_self s.held i h) (taken a)) small

  pub change-Inv :
      (n : ℕ)
      → IsSound s.lock i (s.held i) (Worker.give n)
      → Inv (record (at s i Worker.idle) {
        lock = record (s.lock) { owner_id = n };
        held = update (update s.held i 0) n (s.held i);
      })
  change-Inv n own = record {
    sound = λ t t_nz. elim (ℕ_discrete i t) [
      | yes e ↦
          subst
            (λ u.
              IsSound (record (s.lock) { owner_id = n }) u
                (update (update s.held i 0) n (s.held i) u) (update s.worker i Worker.idle u))
            e (rw (update_self s.worker i Worker.idle) (ground arith))
      | no ne ↦ rw (update_ne s.worker Worker.idle ne) (elim (ℕ_discrete n t) [
        | yes e ↦
            subst
              (λ u.
                IsSound (record (s.lock) { owner_id = n }) t
                  (update (update s.held i 0) u (s.held i) t) (s.worker t))
              (sym e)
              (rw (update_self (update s.held i 0) t (s.held i)) (
                IsSound-given s.lock (record (s.lock) { owner_id = n }) t (s.held t) (s.held i)
                  (s.worker t) (v.sound t t_nz) (others_held (omega arith) t ne) e (omega arith)))
        | no other ↦
            rw (update_ne (update s.held i 0) (s.held i) other, update_ne s.held 0 ne)
              (IsSound-away s.lock (record (s.lock) { owner_id = n }) t (s.held t) (s.worker t)
                (v.sound t t_nz) (others_held (omega arith) t ne) other)
      ])
    ];
    alone = λ t u a b. ground (arith, others_held (omega arith) t, others_held (omega arith) u);
    taken = λ a. (n, rw (update_self (update s.held i 0) n (s.held i)) (omega arith));
    nobody =
        rw
          (
            update_ne (update s.held i 0) {i = n} {j = 0} (s.held i) (omega arith),
            update_ne s.held 0 nz,
          )
          v.nobody;
    small = v.small;
  }
