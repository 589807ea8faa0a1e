-- ===== src/Gc/Hazard/Deref/Invariant.antt =====
-- The invariant of derefLink and the scans, and the kinds of steps that keep it.
use temp_data_structure_benc.Prelude.{
  ℕ, ◌≡◌, ◌≢◌, ◌<◌, ◌&&◌, ◌∷◌, ◌∙◌, true, false, List, [], update, refl, sym, ap, arith,
  update_self, update_ne,
}
use mathlib.Core.Path.{subst}
use native.Mathlib.Decide.{ℕ_discrete}
use temp_data_structure_benc.Prelude.Sort.{contains}
use temp_data_structure_benc.Gc.Hazard.Deref.{Guard, Scanner, System, start, keep}

pub contains-keep :
    (plist list : List ℕ) (p : ℕ)
    → contains (keep plist list) p ≡ (contains list p && contains plist p)
contains-keep plist [] p = refl
contains-keep plist (x ∷ rest) p = elim (ℕ_discrete x p) [
  | yes e ↦ ground (arith, contains-keep plist rest p, ap (contains plist) e)
  | no ne ↦ ground (arith, contains-keep plist rest p)
]

-- A scan that is past the guard `g` has seen `p` there.
abbrev pub Seen : Scanner → ℕ → ℕ → Type 0
Seen Scanner.resting g p = Unit
Seen (Scanner.collecting i plist) g p = (g < i) → contains plist p ≡ true

-- What the place of a guard says; `p` is safe from all scans.
abbrev pub IsSafe : System → ℕ → ℕ → Type 0
IsSafe s g p =
    (s.hzp g ≡ p)
    × (s.live p ≡ true)
    × ((t : ℕ) → contains (s.retired t) p ≡ true → Seen (s.scanner t) g p)

abbrev pub IsSound : ℕ → System → ℕ → Guard → Type 0
IsSound guards s g (Guard.check link p) = s.hzp g ≡ p
IsSound guards s g (Guard.holding p) = (g < guards) × (p ≢ 0 → IsSafe s g p)
IsSound guards s g _ = Unit

pub record Inv (guards : ℕ) (s : System) : Type 0 where
  pub linked :
      (link : ℕ)
      → s.link link ≢ 0
      → (s.live (s.link link) ≡ true) × ((t : ℕ) → contains (s.retired t) (s.link link) ≡ false)
  pub retired_live : (t p : ℕ) → contains (s.retired t) p ≡ true → s.live p ≡ true
  pub once : (t u p : ℕ) → contains (s.retired t) p ≡ true → contains (s.retired u) p ≡ true → t ≡ u
  pub sound : (g : ℕ) → IsSound guards s g (s.guard g)

pub start-Inv : (guards : ℕ) → Inv guards start
start-Inv guards = record {
  linked = λ link ne. absurd (ne refl);
  retired_live = λ t p h. cc;
  once = λ t u p h k. cc;
  sound = λ g. tt;
}

-- A place stays sound where the guard stays and what it holds stays safe.
pub IsSound-imp :
    (guards : ℕ) (s s' : System) (g : ℕ) (w : Guard)
    → s'.hzp g ≡ s.hzp g
    → ((p : ℕ) → g < guards → p ≢ 0 → IsSafe s g p → IsSafe s' g p)
    → IsSound guards s g w
    → IsSound guards s' g w
IsSound-imp guards s s' g Guard.idle e f h = tt
IsSound-imp guards s s' g (Guard.load link) e f h = tt
IsSound-imp guards s s' g (Guard.store link p) e f h = tt
IsSound-imp guards s s' g (Guard.check link p) e f h = e ∙ h
IsSound-imp guards s s' g (Guard.holding p) e f h = (h.0, λ nz. f p h.0 nz (h.1 nz))

module _ {guards : ℕ} {s : System} (v : Inv guards s) where
  -- What the place of a guard says, where it is known.
  pub place : (g : ℕ) (w : Guard) → s.guard g ≡ w → IsSound guards s g w
  place g w e = subst (IsSound guards s g) e (v.sound g)

  -- A step of the owner of the guard `g`, which may store to it.
  pub guard_step :
      (g : ℕ) (w : Guard) (p : ℕ)
      → (let s' : System = record s { guard = update s.guard g w; hzp = update s.hzp g p } in
          IsSound guards s' g w)
      → Inv guards (record s { guard = update s.guard g w; hzp = update s.hzp g p })
  guard_step g w p own = record {
    linked = v.linked;
    retired_live = v.retired_live;
    once = v.once;
    sound = λ h. elim (ℕ_discrete g h) [
      | yes e ↦
          subst
            (λ k.
              IsSound guards (record s { guard = update s.guard g w; hzp = update s.hzp g p }) k
                (update s.guard g w k))
            e (rw (update_self s.guard g w) own)
      | no ne ↦ rw (update_ne s.guard w ne) (
          IsSound-imp guards s (record s { guard = update s.guard g w; hzp = update s.hzp g p }) h
            (s.guard h) (update_ne s.hzp p ne)
            (λ q lt nz safe. (update_ne s.hzp p ne ∙ safe.0, safe.1, safe.2)) (v.sound h))
    ];
  }

  -- A step of the owner of the guard `g` that leaves the guard alone.
  pub place_step :
      (g : ℕ) (w : Guard)
      → IsSound guards s g w
      → Inv guards (record s { guard = update s.guard g w })
  place_step g w own = record {
    linked = v.linked;
    retired_live = v.retired_live;
    once = v.once;
    sound = λ h. elim (ℕ_discrete g h) [
      | yes e ↦
          subst (λ k. IsSound guards s k (update s.guard g w k)) e
            (rw (update_self s.guard g w) own)
      | no ne ↦ rw (update_ne s.guard w ne) (v.sound h)
    ];
  }

  -- A step that leaves the guards alone.
  pub other_step :
      (s' : System)
      → s'.guard ≡ s.guard
      → s'.hzp ≡ s.hzp
      → ((link : ℕ)
          → s'.link link ≢ 0
          → (s'.live (s'.link link) ≡ true)
            × ((t : ℕ) → contains (s'.retired t) (s'.link link) ≡ false))
      → ((t p : ℕ) → contains (s'.retired t) p ≡ true → s'.live p ≡ true)
      → ((t u p : ℕ) → contains (s'.retired t) p ≡ true → contains (s'.retired u) p ≡ true → t ≡ u)
      → ((g p : ℕ)
          → g < guards
          → p ≢ 0
          → IsSafe s g p
          → (s'.live p ≡ true)
            × ((t : ℕ) → contains (s'.retired t) p ≡ true → Seen (s'.scanner t) g p))
      → Inv guards s'
  other_step s' same_guard same_hzp linked live once safe = record {
    linked = linked;
    retired_live = live;
    once = once;
    sound = λ g. subst (IsSound guards s' g) (sym (ap (λ a. a g) same_guard)) (
        IsSound-imp guards s s' g (s.guard g) (ap (λ a. a g) same_hzp)
          (λ p lt nz old.
            let (live', seen) = safe g p lt nz old in (ap (λ a. a g) same_hzp ∙ old.0, live', seen))
          (v.sound g));
  }

  -- A step of the scanner of the thread `t` alone.
  pub scanner_step :
      (t : ℕ) (w : Scanner)
      → ((g p : ℕ)
          → g < guards
          → p ≢ 0
          → IsSafe s g p
          → contains (s.retired t) p ≡ true
          → Seen w g p)
      → Inv guards (record s { scanner = update s.scanner t w })
  scanner_step t w seen =
      other_step (record s { scanner = update s.scanner t w }) refl refl v.linked v.retired_live
        v.once
        (λ g p lt nz safe. (
          safe.1,
          λ u has. elim (ℕ_discrete t u) [
            | yes e ↦
                subst (λ k. Seen (update s.scanner t w k) g p) e
                  (subst (λ x. Seen x g p) (sym (update_self s.scanner t w))
                    (seen g p lt nz safe
                      (subst (λ k. contains (s.retired k) p ≡ true) (sym e) has)))
            | no ne ↦ subst (λ x. Seen x g p) (sym (update_ne s.scanner w ne)) (safe.2 u has)
          ],
        ))
