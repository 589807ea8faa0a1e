-- ===== src/Gc/Hazard/Detach.antt =====
-- The records of the collector when all threads give up theirs.
use temp_data_structure_benc.Prelude.{
  ℕ, ◌≡◌, ◌≢◌, refl, sym, ap, ◌∙◌, arith, List, [], ◌∷◌, update_self, update_ne, ◌==◌, ==_iff,
  if◌then◌else◌, if_elim, All, All-imp, All-both,
}
use mathlib.Core.Path.{subst}
use temp_data_structure_benc.Prelude.Sort.{Distinct}
use temp_data_structure_benc.Gc.Hazard.{
  make_free_stack, HpRecord, GarbageCollector, retire_hp_rec, detach_all_loop, detach_all,
}
use temp_data_structure_benc.Gc.Hazard.Slots.{fill_within}
use temp_data_structure_benc.Gc.Hazard.Scan.Hazards.{Holds}
use temp_data_structure_benc.Gc.Hazard.Records.{Holds-null}

-- A record that nobody owns guards nothing, and each has as many guards as the collector counts.
pub record IsTidy (gc : GarbageCollector) (a : ℕ) : Type 0 where
  pub capacity : (gc.at a).hzp.capacity ≡ gc.hazard_count
  pub idle : (p : ℕ) → (gc.at a).owner ≡ 0 → Holds (gc.at a).hzp.arr 0 gc.hazard_count p → ⊥

-- Nobody owns the record, and it guards nothing.
pub record IsIdle (gc : GarbageCollector) (a : ℕ) : Type 0 where
  pub unowned : (gc.at a).owner ≡ 0
  pub idle : (p : ℕ) → Holds (gc.at a).hzp.arr 0 gc.hazard_count p → ⊥

retire_hp_rec-IsIdle :
    (gc : GarbageCollector) (a : ℕ)
    → (gc.at a).hzp.capacity ≡ gc.hazard_count
    → IsIdle (retire_hp_rec a gc) a
retire_hp_rec-IsIdle gc a cap =
    let mine = record (gc.at a) { hzp = make_free_stack (gc.at a).hzp; owner = 0 } in
    let at_a = update_self gc.at a mine in
    record {
      unowned = ap (λ (r : HpRecord). r.owner) at_a;
      idle = λ p h.
          Holds-null (make_free_stack (gc.at a).hzp).arr 0 gc.hazard_count p
            (λ j le lt.
              fill_within (gc.at a).hzp.arr 0 (gc.at a).hzp.capacity j le (omega (arith, cap)))
            (subst (λ (r : HpRecord). Holds r.hzp.arr 0 gc.hazard_count p) at_a h);
    }

IsTidy-same :
    {gc gc' : GarbageCollector} {b : ℕ}
    → gc'.at b ≡ gc.at b
    → gc'.hazard_count ≡ gc.hazard_count
    → IsTidy gc b
    → IsTidy gc' b
IsTidy-same {gc} {gc'} {b} e h t = record {
  capacity = ap (λ (r : HpRecord). r.hzp.capacity) e ∙ t.capacity ∙ sym h;
  idle = λ p none held. t.idle p (sym (ap (λ (r : HpRecord). r.owner) e) ∙ none) (
      subst (λ n. Holds (gc.at b).hzp.arr 0 n p) h
        (subst (λ (r : HpRecord). Holds r.hzp.arr 0 gc'.hazard_count p) e held));
}

IsIdle-same :
    {gc gc' : GarbageCollector} {b : ℕ}
    → gc'.at b ≡ gc.at b
    → gc'.hazard_count ≡ gc.hazard_count
    → IsIdle gc b
    → IsIdle gc' b
IsIdle-same {gc} {gc'} {b} e h t = record {
  unowned = ap (λ (r : HpRecord). r.owner) e ∙ t.unowned;
  idle = λ p held. t.idle p (
      subst (λ n. Holds (gc.at b).hzp.arr 0 n p) h
        (subst (λ (r : HpRecord). Holds r.hzp.arr 0 gc'.hazard_count p) e held));
}

-- Each record of the list is idle, and the others are as they were.
pub record Detached (list : List ℕ) (gc gc' : GarbageCollector) : Type 0 where
  pub idle : All (IsIdle gc') list
  pub others : (b : ℕ) → All (λ a. a ≢ b) list → gc'.at b ≡ gc.at b
  pub hazards : gc'.hazard_count ≡ gc.hazard_count

-- The body of the loop of detachAllThread.
abbrev detach_one : ℕ → GarbageCollector → GarbageCollector
detach_one a gc = if (gc.at a).owner == 0 then gc else retire_hp_rec a gc

detach_one_lem :
    (gc : GarbageCollector) (a : ℕ)
    → IsTidy gc a
    → IsIdle (detach_one a gc) a
      × ((b : ℕ) → a ≢ b → (detach_one a gc).at b ≡ gc.at b)
      × ((detach_one a gc).hazard_count ≡ gc.hazard_count)
detach_one_lem gc a tidy =
    if_elim
      (λ (gc' : GarbageCollector).
        IsIdle gc' a
        × ((b : ℕ) → a ≢ b → gc'.at b ≡ gc.at b)
        × (gc'.hazard_count ≡ gc.hazard_count))
      ((gc.at a).owner == 0)
      (λ e.
        let none : (gc.at a).owner ≡ 0 = (==_iff _ 0).0 e in
        (record { unowned = none; idle = λ p. tidy.idle p none }, (λ b ne. refl), refl))
      (λ _. (retire_hp_rec-IsIdle gc a tidy.capacity, (λ b ne. update_ne gc.at _ ne), refl))

detach_all_loop_lem :
    (list : List ℕ) (gc : GarbageCollector)
    → All (IsTidy gc) list
    → Distinct (λ a. a) list
    → Detached list gc (detach_all_loop list gc)
unfolding detach_all_loop
detach_all_loop_lem [] gc tidy d = record { idle = tt; others = λ b h. refl; hazards = refl }
detach_all_loop_lem (a ∷ rest) gc tidy d =
    let (idle, others, hazards) = detach_one_lem gc a tidy.0 in
    let gc' = detach_one a gc in
    let later =
      detach_all_loop_lem rest gc'
        (All-imp rest (λ b (h : (a ≢ b) × IsTidy gc b). IsTidy-same (others b h.0) hazards h.1)
          (All-both (λ b. a ≢ b) (IsTidy gc) rest d.0 tidy.1))
        d.1 in
    record {
      idle = (
        IsIdle-same (later.others a (All-imp rest (λ b (x : a ≢ b). λ (z : b ≡ a). x (sym z)) d.0))
            later.hazards idle,
        later.idle,
      );
      others = λ b h. later.others b h.1 ∙ others b h.0;
      hazards = later.hazards ∙ hazards;
    }

-- After detachAllThread nobody owns a record of the list, none of its records holds a pointer in a
-- guard, and each record outside the list is as it was. Before the call each record of the list must
-- have as many guards as the collector counts, hold no pointer in them if nobody owns it, and stand
-- in the list once.
pub detach_all_lem :
    (gc : GarbageCollector)
    → All (IsTidy gc) gc.list
    → Distinct (λ a. a) gc.list
    → Detached gc.list gc (detach_all gc)
detach_all_lem gc tidy d = detach_all_loop_lem gc.list gc tidy d
