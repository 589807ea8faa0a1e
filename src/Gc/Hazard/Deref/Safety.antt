-- ===== src/Gc/Hazard/Deref/Safety.antt =====
-- No scan deletes what derefLink has returned, until the guard is cleared.
use temp_data_structure_benc.Prelude.{
  ℕ, suc, ◌≡◌, ◌≢◌, ◌⊎◌, ◌&&◌, ◌++◌, ◌∷◌, ◌∙◌, true, false, not, List, [], update, ◌==◌, ==_iff,
  if◌then◌else◌, refl, sym, ap, arith, inl, inr, update_self, update_ne, Bool-cases,
}
use mathlib.Core.Path.{subst}
use native.Mathlib.Decide.{ℕ_discrete}
use temp_data_structure_benc.Prelude.Sort.{contains}
use temp_data_structure_benc.Gc.Hazard.Scan.Hazards.{contains-append_one}
use temp_data_structure_benc.Gc.Hazard.Deref.{
  Guard, Scanner, System, keep, Step, begin, load_link, store_guard, check_same, check_other,
  clear_guard, allocate, write_link, retire, begin_scan, load_guard, delete_rest, Reach, here, next,
}
use temp_data_structure_benc.Gc.Hazard.Deref.Invariant.{
  contains-keep, Seen, Inv, start-Inv, place, guard_step, place_step, other_step, scanner_step,
}

Seen-append :
    (i : ℕ) (plist : List ℕ) (x g p : ℕ)
    → Seen (Scanner.collecting i plist) g p
    → (g ≡ i → x ≡ p)
    → Seen (Scanner.collecting (suc i) (plist ++ (x ∷ []))) g p
Seen-append i plist x g p seen found lt = elim (ℕ_discrete g i) [
  | yes e ↦ ground (arith, contains-append_one plist x p, found e)
  | no ne ↦ ground (arith, contains-append_one plist x p, seen (omega arith))
]

module _ {guards : ℕ} {s : System} (v : Inv guards s) where
  load_guard_step :
      (t i : ℕ) (plist : List ℕ)
      → s.scanner t ≡ Scanner.collecting i plist
      → Inv guards (record s {
        scanner =
            update s.scanner t (
              Scanner.collecting (suc i) (if s.hzp i == 0 then plist else plist ++ (s.hzp i ∷ [])));
      })
  load_guard_step t i plist at = scanner_step v t _ (λ g p lt nz safe has.
      let seen : Seen (Scanner.collecting i plist) g p =
        subst (λ x. Seen x g p) at (safe.2 t has) in
      elim (Bool-cases (s.hzp i == 0)) [
        | inl null ↦ rw null (λ below.
            let not_here : g ≢ i =
              λ z. nz (sym safe.0 ∙ ap s.hzp z ∙ (==_iff (s.hzp i) 0).0 null) in
            seen (omega arith))
        | inr some_ptr ↦
            rw some_ptr (Seen-append i plist (s.hzp i) g p seen (λ z. ap s.hzp (sym z) ∙ safe.0))
      ])

  -- What a retired list has after a retirement.
  added :
      (t p u q : ℕ)
      → contains (update s.retired t (s.retired t ++ (p ∷ [])) u) q ≡ true
      → (contains (s.retired u) q ≡ true) ⊎ ((t ≡ u) × (p ≡ q))
  added t p u q h = elim (ℕ_discrete t u) [
    | yes e ↦
        let h' : contains (s.retired u ++ (p ∷ [])) q ≡ true =
          subst (λ k. contains (s.retired k ++ (p ∷ [])) q ≡ true) e
            (sym (ap (λ l. contains l q) (update_self s.retired t (s.retired t ++ (p ∷ []))))
              ∙ subst (λ k. contains (update s.retired t (s.retired t ++ (p ∷ [])) k) q ≡ true)
                  (sym e) h) in
        ground (arith, contains-append_one (s.retired u) p q, h')
    | no ne ↦
        inl (sym (ap (λ l. contains l q) (update_ne s.retired (s.retired t ++ (p ∷ [])) ne)) ∙ h)
  ]

  retire_step :
      (t p : ℕ)
      → s.scanner t ≡ Scanner.resting
      → s.live p ≡ true
      → ((link : ℕ) → s.link link ≢ p)
      → ((u : ℕ) → contains (s.retired u) p ≡ false)
      → Inv guards (record s { retired = update s.retired t (s.retired t ++ (p ∷ [])) })
  retire_step t p rest live unlinked fresh =
      other_step v (record s { retired = update s.retired t (s.retired t ++ (p ∷ [])) }) refl refl
        (λ link ne. (
          (v.linked link ne).0,
          λ u.
              elim (Bool-cases
                (contains (update s.retired t (s.retired t ++ (p ∷ [])) u) (s.link link))) [
                  | inl has ↦ elim (added t p u (s.link link) has) [
                    | inl old ↦ absurd (cc (old, (v.linked link ne).1 u))
                    | inr new ↦ absurd (unlinked link (sym new.1))
                  ]
                  | inr none ↦ none
                ],
        ))
        (λ u q has. elim (added t p u q has) [
          | inl old ↦ v.retired_live u q old
          | inr new ↦ ap s.live (sym new.1) ∙ live
        ])
        (λ u w q h k. elim (added t p u q h) [
          | inl a ↦ elim (added t p w q k) [
            | inl b ↦ v.once u w q a b
            | inr b ↦ absurd (cc (a, fresh u, ap (contains (s.retired u)) b.1))
          ]
          | inr a ↦ elim (added t p w q k) [
            | inl b ↦ absurd (cc (b, fresh w, ap (contains (s.retired w)) a.1))
            | inr b ↦ sym a.0 ∙ b.0
          ]
        ])
        (λ g q lt nz safe. (
          safe.1,
          λ u has. elim (added t p u q has) [
            | inl old ↦ safe.2 u old
            | inr new ↦
                subst (λ k. Seen (s.scanner k) g q) new.0 (subst (λ x. Seen x g q) (sym rest) tt)
          ],
        ))

  -- What a retired list still has after the end of the scan of `t`.
  kept :
      (t : ℕ) (plist : List ℕ) (u q : ℕ)
      → contains (update s.retired t (keep plist (s.retired t)) u) q ≡ true
      → (contains (s.retired u) q ≡ true) × (t ≡ u → contains plist q ≡ true)
  kept t plist u q h = elim (ℕ_discrete t u) [
    | yes e ↦
        let h' : contains (keep plist (s.retired u)) q ≡ true =
          subst (λ k. contains (keep plist (s.retired k)) q ≡ true) e
            (sym (ap (λ l. contains l q) (update_self s.retired t (keep plist (s.retired t))))
              ∙ subst (λ k. contains (update s.retired t (keep plist (s.retired t)) k) q ≡ true)
                  (sym e) h) in
        (
          ground (arith, contains-keep plist (s.retired u) q, h'),
          λ _. ground (arith, contains-keep plist (s.retired u) q, h'),
        )
    | no ne ↦ (
      sym (ap (λ l. contains l q) (update_ne s.retired (keep plist (s.retired t)) ne)) ∙ h,
      λ e. absurd (ne e),
    )
  ]

  delete_step :
      (t : ℕ) (plist : List ℕ)
      → s.scanner t ≡ Scanner.collecting guards plist
      → Inv guards (record s {
        scanner = update s.scanner t Scanner.resting;
        retired = update s.retired t (keep plist (s.retired t));
        live = λ p. if contains (s.retired t) p && not (contains plist p) then false else s.live p;
      })
  delete_step t plist at =
      other_step v _ refl refl
        (λ link ne.
          let (alive, unretired) = v.linked link ne in
          (
            stays (s.link link) alive (λ h. absurd (cc (h, unretired t))),
            λ u.
                elim (Bool-cases
                  (contains (update s.retired t (keep plist (s.retired t)) u) (s.link link))) [
                    | inl has ↦ absurd (cc ((kept t plist u (s.link link) has).0, unretired u))
                    | inr none ↦ none
                  ],
          ))
        (λ u q has.
          let (old, own) = kept t plist u q has in
          stays q (v.retired_live u q old) (λ h. own (v.once t u q h old)))
        (λ u w q h k. v.once u w q (kept t plist u q h).0 (kept t plist w q k).0)
        (λ g q lt nz safe. (
          stays q safe.1 (λ h. subst (λ x. Seen x g q) at (safe.2 t h) lt),
          λ u has. elim (ℕ_discrete t u) [
            | yes e ↦
                subst (λ k. Seen (update s.scanner t Scanner.resting k) g q) e
                  (subst (λ x. Seen x g q) (sym (update_self s.scanner t Scanner.resting)) tt)
            | no ne ↦
                subst (λ x. Seen x g q) (sym (update_ne s.scanner Scanner.resting ne))
                  (safe.2 u (kept t plist u q has).0)
          ],
        ))
    where
      stays :
          (q : ℕ)
          → s.live q ≡ true
          → (contains (s.retired t) q ≡ true → contains plist q ≡ true)
          → (if contains (s.retired t) q && not (contains plist q) then false else s.live q) ≡ true
      stays q alive listed = elim (Bool-cases (contains (s.retired t) q)) [
        | inl has ↦ ground (arith, alive, listed has)
        | inr none ↦ ground (arith, alive, none)
      ]

Step-Inv : {guards : ℕ} {s t : System} → Step guards s t → Inv guards s → Inv guards t
Step-Inv (begin g link lt e) v = place_step v g (Guard.load link) tt
Step-Inv {s = s} (load_link g link lt e) v = place_step v g (Guard.store link (s.link link)) tt
Step-Inv {s = s} (store_guard g link p lt e) v =
    guard_step v g (Guard.check link p) p (update_self s.hzp g p)
Step-Inv {s = s} (check_same g link p lt e same) v = place_step v g (Guard.holding p) (
  lt,
  λ nz.
      let known = v.linked link (λ z. nz (sym same ∙ z)) in
      (
        place v g (Guard.check link p) e,
        ap s.live (sym same) ∙ known.0,
        λ t has. absurd (cc (has, known.1 t, ap (contains (s.retired t)) same)),
      ),
)
Step-Inv (check_other g link p lt e other) v = place_step v g (Guard.load link) tt
Step-Inv (clear_guard g p lt e) v = guard_step v g Guard.idle 0 tt
Step-Inv {s = s} (allocate p dead) v =
    other_step v _ refl refl
      (λ link ne. (kept (s.link link) (v.linked link ne).0, (v.linked link ne).1))
      (λ t q h. kept q (v.retired_live t q h)) v.once (λ g q lt nz safe. (kept q safe.1, safe.2))
  where
    kept : (q : ℕ) → s.live q ≡ true → update s.live p true q ≡ true
    kept q h = ground (arith, h)
Step-Inv {s = s} (write_link link p fit) v =
    other_step v _ refl refl
      (λ l ne. elim (ℕ_discrete link l) [
        | yes e ↦
            let at_l : update s.link link p l ≡ p = ground (arith, e) in
            rw at_l (written (λ z. ne (at_l ∙ z)))
        | no other ↦
            rw (update_ne s.link p other) (v.linked l (λ z. ne (update_ne s.link p other ∙ z)))
      ])
      v.retired_live v.once (λ g q lt nz safe. (safe.1, safe.2))
  where
    written : p ≢ 0 → (s.live p ≡ true) × ((t : ℕ) → contains (s.retired t) p ≡ false)
    written nz = elim fit [ inl z ↦ absurd (nz z) | inr h ↦ h ]
Step-Inv {s = s} (retire t p rest live unlinked fresh) v =
    retire_step v t p rest live unlinked fresh
Step-Inv {s = s} (begin_scan t rest) v =
    scanner_step v t (Scanner.collecting 0 []) (λ g p lt nz safe has. λ low. absurd (omega arith))
Step-Inv {s = s} (load_guard t i plist at lt) v = load_guard_step v t i plist at
Step-Inv {s = s} (delete_rest t plist at) v = delete_step v t plist at

Reach-Inv : {guards : ℕ} {s : System} → Reach guards s → Inv guards s
Reach-Inv {guards} here = start-Inv guards
Reach-Inv (next r st) = Step-Inv st (Reach-Inv r)

-- In every reachable state the object that derefLink has returned lives, and its guard holds it,
-- whatever containers and scans have done since; in particular no scan has deleted it.
pub holding_lives :
    {guards : ℕ} {s : System}
    → Reach guards s
    → (g p : ℕ) → s.guard g ≡ Guard.holding p
    → p ≢ 0
    → (s.live p ≡ true) × (s.hzp g ≡ p)
holding_lives r g p e nz =
    let (fits, safe) = place (Reach-Inv r) g (Guard.holding p) e in ((safe nz).1, (safe nz).0)
