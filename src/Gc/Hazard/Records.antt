-- ===== src/Gc/Hazard/Records.antt =====
-- The allocation of the records of the collector.
use temp_data_structure_benc.Prelude.{
  ℕ, zero, suc, ◌+◌, ◌%◌, ◌^◌, ◌≤◌, ◌<◌, ◌≡◌, ◌≢◌, ◌⊎◌, inl, inr, refl, sym, ap, ◌∙◌, arith, true,
  false, List, [], ◌∷◌, Array, update, update_self, update_ne, ◌==◌, ==_iff, if_elim, All, All-imp,
}
use mathlib.Core.Path.{subst}
use temp_data_structure_benc.Prelude.Sort.{contains}
use temp_data_structure_benc.Gc.Hazard.{
  Retired, HpRecord, GarbageCollector, new_hp_rec, reuse_hp_rec, allocate_hp_rec,
}
use temp_data_structure_benc.Gc.Hazard.Slots.{fill_within}
use temp_data_structure_benc.Gc.Hazard.Scan.Hazards.{Holds}

-- A record of the list that nobody owned is given to the thread as it was.
pub record Reuses (gc gc' : GarbageCollector) (a : ℕ) : Type 0 where
  pub list : gc'.list ≡ gc.list
  pub listed : contains gc.list a ≡ true
  pub unowned : (gc.at a).owner ≡ 0
  pub retired : (gc'.at a).retired ≡ (gc.at a).retired
  pub hzp : (gc'.at a).hzp ≡ (gc.at a).hzp

-- A thread has each record of the list. The new record, in front of them, has no guard that
-- holds a pointer and no retired pointer.
pub record Creates (fresh : ℕ) (gc gc' : GarbageCollector) (a : ℕ) : Type 0 where
  pub owned : All (λ b. (gc.at b).owner ≢ 0) gc.list
  pub list : gc'.list ≡ fresh ∷ gc.list
  pub at_fresh : a ≡ fresh
  pub unlisted : contains gc.list a ≡ false
  pub null : (p : ℕ) → Holds (gc'.at a).hzp.arr 0 gc.hazard_count p → ⊥
  pub guards : (gc'.at a).hzp.capacity ≡ gc.hazard_count
  pub top : (gc'.at a).hzp.top ≡ gc.hazard_count % 2 ^ 32
  pub empty : (gc'.at a).retired.size ≡ 0
  pub room : (gc'.at a).retired.capacity ≡ gc.max_retired

-- The thread `tid` has the record at `a` for its own, and no other record has changed.
pub record Allocated (tid fresh : ℕ) (gc gc' : GarbageCollector) (a : ℕ) : Type 0 where
  pub owner : (gc'.at a).owner ≡ tid
  pub used : (gc'.at a).free ≡ false
  pub others : (b : ℕ) → a ≢ b → gc'.at b ≡ gc.at b
  pub listed : contains gc'.list a ≡ true
  pub origin : Reuses gc gc' a ⊎ Creates fresh gc gc' a

-- An array of NULLs holds nothing.
pub Holds-null :
    (hzp : Array ℕ) (i n p : ℕ) → ((j : ℕ) → i ≤ j → j < i + n → hzp j ≡ 0) → Holds hzp i n p → ⊥
Holds-null hzp i zero p null h = h
Holds-null hzp i (suc n) p null (inl here) =
    here.0 (sym here.1 ∙ null i (omega arith) (omega arith))
Holds-null hzp i (suc n) p null (inr later) =
    Holds-null hzp (suc i) n p (λ j le lt. null j (omega arith) (omega arith)) later

module _ (tid fresh : ℕ) (gc : GarbageCollector) where
  claim_hp_rec :
      (a : ℕ)
      → (gc.at a).owner ≡ 0
      → contains gc.list a ≡ true
      → Allocated tid fresh gc
          (record gc { at = update gc.at a (record (gc.at a) { owner = tid; free = false }) })
          a
  claim_hp_rec a free listed =
      let mine = record (gc.at a) { owner = tid; free = false } in
      let at_a = update_self gc.at a mine in
      record {
        owner = ap (λ (r : HpRecord). r.owner) at_a;
        used = ap (λ (r : HpRecord). r.free) at_a;
        others = λ b ne. update_ne gc.at mine ne;
        listed = listed;
        origin = inl (record {
          list = refl;
          listed = listed;
          unowned = free;
          retired = ap (λ (r : HpRecord). r.retired) at_a;
          hzp = ap (λ (r : HpRecord). r.hzp) at_a;
        });
      }

  reuse_hp_rec_lem :
      (list : List ℕ) (otherwise : ℕ × GarbageCollector)
      → All (λ a. contains gc.list a ≡ true) list
      → (All (λ b. (gc.at b).owner ≢ 0) list → Allocated tid fresh gc otherwise.1 otherwise.0)
      → Allocated tid fresh gc
          (reuse_hp_rec tid list gc otherwise).1
          (reuse_hp_rec tid list gc otherwise).0
  unfolding reuse_hp_rec
  reuse_hp_rec_lem [] otherwise h k = k tt
  reuse_hp_rec_lem (a ∷ rest) otherwise h k =
      if_elim (λ (r : ℕ × GarbageCollector). Allocated tid fresh gc r.1 r.0) ((gc.at a).owner == 0)
        (λ e. claim_hp_rec a ((==_iff _ 0).0 e) h.0)
        (λ ne. reuse_hp_rec_lem rest otherwise h.1 (λ owned. k (ground (arith, ne), owned)))

  create_hp_rec :
      (garbage : Array Retired)
      → contains gc.list fresh ≡ false
      → All (λ b. (gc.at b).owner ≢ 0) gc.list
      → Allocated tid fresh gc
          (record gc {
            list = fresh ∷ gc.list;
            at = update gc.at fresh (record (new_hp_rec gc garbage) { owner = tid; free = false });
          })
          fresh
  create_hp_rec garbage unlisted owned =
      let mine : HpRecord = record (new_hp_rec gc garbage) { owner = tid; free = false } in
      let at_fresh = update_self gc.at fresh mine in
      record {
        owner = ap (λ (r : HpRecord). r.owner) at_fresh;
        used = ap (λ (r : HpRecord). r.free) at_fresh;
        others = λ b ne. update_ne gc.at mine ne;
        listed = ground arith;
        origin = inr (record {
          owned = owned;
          list = refl;
          at_fresh = refl;
          unlisted = unlisted;
          null = λ p h.
              Holds-null mine.hzp.arr 0 gc.hazard_count p
                (λ j le lt. fill_within (λ _. 0) 0 gc.hazard_count j le lt)
                (subst (λ (r : HpRecord). Holds r.hzp.arr 0 gc.hazard_count p) at_fresh h);
          guards = ap (λ (r : HpRecord). r.hzp.capacity) at_fresh;
          top = ap (λ (r : HpRecord). r.hzp.top) at_fresh;
          empty = ap (λ (r : HpRecord). r.retired.size) at_fresh;
          room = ap (λ (r : HpRecord). r.retired.capacity) at_fresh;
        });
      }

contains-All : (list : List ℕ) → All (λ a. contains list a ≡ true) list
contains-All [] = tt
contains-All (x ∷ xs) = (ground arith, All-imp xs (λ y h. ground (arith, h)) (contains-All xs))

-- AllocateHPRec makes the thread the owner of a record of the list, and no other record changes.
-- Either the record stood in the list and nobody owned it: then the list stays as it is, and so do the
-- record's guards and retired pointers. Or a thread owned each record of the list, and this one is
-- new, in front of them, at the address that the allocator returned: it has as many guards as the
-- collector counts, all NULL and free up to the wrap of an `unsigned int`, and an empty vector with
-- the room that the collector asks for. The allocator must not return the address of a record of
-- the list.
pub allocate_hp_rec_lem :
    (tid fresh : ℕ) (garbage : Array Retired) (gc : GarbageCollector)
    → contains gc.list fresh ≡ false
    → Allocated tid fresh gc
        (allocate_hp_rec tid fresh garbage gc).1
        (allocate_hp_rec tid fresh garbage gc).0
unfolding allocate_hp_rec
allocate_hp_rec_lem tid fresh garbage gc unlisted =
    reuse_hp_rec_lem tid fresh gc gc.list _ (contains-All gc.list)
      (create_hp_rec tid fresh gc garbage unlisted)
