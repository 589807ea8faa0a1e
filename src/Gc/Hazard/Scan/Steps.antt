-- ===== src/Gc/Hazard/Scan/Steps.antt =====
-- What a scan and a push do to the collector: the guards stay, and what is deleted was not guarded.
use temp_data_structure_benc.Prelude.{
  ℕ, ◌*◌, ◌<◌, ◌≡◌, ◌≢◌, refl, sym, ap, ◌∙◌, false, not, List, [], ◌∷◌, ◌++◌, arith, if_elim, Array,
  All, All-imp, All-append, length, append_assoc, append-nil, update, update_self, update_ne,
}
use mathlib.Core.Path.{subst}
use native.Mathlib.Decide.{ℕ_discrete}
use temp_data_structure_benc.Prelude.Sort.{filter, Distinct, Distinct-split, Distinct-join}
use temp_data_structure_benc.Gc.Hazard.{Retired, RetiredVector, HpRecord, GarbageCollector}
use temp_data_structure_benc.Gc.Hazard.Scan.{Scanned, scan_vector, scan}
use temp_data_structure_benc.Gc.Hazard.Scan.Hazards.{guarded, guarded_by}
use temp_data_structure_benc.Gc.Hazard.Scan.Classic.{items}
use temp_data_structure_benc.Gc.Hazard.Scan.Marks.{key}
use temp_data_structure_benc.Gc.Hazard.Scan.Room.{
  scan_vector-Cleans, Cleans-items, Cleans-Distinct, Cleans-size,
}
use temp_data_structure_benc.Gc.Hazard.Scan.Filters.{filter-All}

-- The records, their guards and the way to scan are the same.
pub record SameGuards (gc gc' : GarbageCollector) : Type 0 where
  pub list : gc'.list ≡ gc.list
  pub hazard_count : gc'.hazard_count ≡ gc.hazard_count
  pub scan_type : gc'.scan_type ≡ gc.scan_type
  pub hzp : (a : ℕ) → (gc'.at a).hzp ≡ (gc.at a).hzp

guarded_by-SameGuards :
    (gc gc' : GarbageCollector) (list : List ℕ) (p : ℕ)
    → SameGuards gc gc'
    → guarded_by gc' list p ≡ guarded_by gc list p
guarded_by-SameGuards gc gc' [] p k = refl
guarded_by-SameGuards gc gc' (a ∷ rest) p k =
    rw (k.hazard_count, k.hzp a, guarded_by-SameGuards gc gc' rest p k) refl

pub guarded-SameGuards :
    {gc gc' : GarbageCollector} → SameGuards gc gc' → (p : ℕ) → guarded gc' p ≡ guarded gc p
guarded-SameGuards {gc} {gc'} k p =
    ap (λ l. guarded_by gc' l p) k.list ∙ guarded_by-SameGuards gc gc' gc.list p k

-- The guards are the same, and what has been deleted since was guarded by no record.
pub record Safe (gc gc' : GarbageCollector) : Type 0 where
  pub same : SameGuards gc gc'
  pub more : List Retired
  pub deleted : gc'.deleted ≡ gc.deleted ++ more
  pub unguarded : All (λ r. guarded gc r.ptr ≡ false) more

pub Safe-quiet :
    {gc gc' : GarbageCollector} → SameGuards gc gc' → gc'.deleted ≡ gc.deleted → Safe gc gc'
Safe-quiet {gc} k e = record {
  same = k;
  more = [];
  deleted = e ∙ sym (append-nil gc.deleted);
  unguarded = tt;
}

pub Safe-trans : {a b c : GarbageCollector} → Safe a b → Safe b c → Safe a c
Safe-trans {a} p q = record {
  same = record {
    list = q.same.list ∙ p.same.list;
    hazard_count = q.same.hazard_count ∙ p.same.hazard_count;
    scan_type = q.same.scan_type ∙ p.same.scan_type;
    hzp = λ r. q.same.hzp r ∙ p.same.hzp r;
  };
  more = p.more ++ q.more;
  deleted = q.deleted ∙ ap (λ l. l ++ q.more) p.deleted ∙ append_assoc a.deleted p.more q.more;
  unguarded =
      All-append (λ r. guarded a r.ptr ≡ false) p.more q.more p.unguarded
        (All-imp q.more (λ r h. sym (guarded-SameGuards p.same r.ptr) ∙ h) q.unguarded);
}

-- The record `this` can take one more pointer, also after a scan, and `more` are not among its own.
pub record HasRoom (gc : GarbageCollector) (this : ℕ) (more : List Retired) : Type 0 where
  pub distinct : Distinct key (items (gc.at this).retired ++ more)
  pub room : (gc.at this).retired.size < (gc.at this).retired.capacity
  pub enough : length gc.list * gc.hazard_count < (gc.at this).retired.capacity

-- `gc'` is `gc` with other retired pointers in the record `this`.
pub record Only (this : ℕ) (gc gc' : GarbageCollector) : Type 0 where
  pub others : (b : ℕ) → this ≢ b → gc'.at b ≡ gc.at b
  pub owner : (gc'.at this).owner ≡ (gc.at this).owner
  pub free : (gc'.at this).free ≡ (gc.at this).free

pub Only-trans :
    {this : ℕ} {a b c : GarbageCollector} → Only this a b → Only this b c → Only this a c
Only-trans p q = record {
  others = λ r ne. q.others r ne ∙ p.others r ne;
  owner = q.owner ∙ p.owner;
  free = q.free ∙ p.free;
}

module _ (gc : GarbageCollector) (this : ℕ) (v : RetiredVector) where
  abbrev pub put_vector : Array HpRecord
  put_vector = update gc.at this (record (gc.at this) { retired = v })

  put_vector-hzp : (a : ℕ) → (put_vector a).hzp ≡ (gc.at a).hzp
  put_vector-hzp a = elim (ℕ_discrete this a) [
    | yes e ↦
        subst (λ b. (put_vector b).hzp ≡ (gc.at b).hzp) e
          (ap (λ (r : HpRecord). r.hzp)
            (update_self gc.at this (record (gc.at this) { retired = v })))
    | no ne ↦
        ap (λ (r : HpRecord). r.hzp) (update_ne gc.at (record (gc.at this) { retired = v }) ne)
  ]

  pub put_vector-Only :
      (deleted : List Retired) → Only this gc (record gc { at = put_vector; deleted = deleted })
  put_vector-Only deleted = record {
    others = λ b ne. update_ne gc.at (record (gc.at this) { retired = v }) ne;
    owner =
        ap (λ (r : HpRecord). r.owner)
          (update_self gc.at this (record (gc.at this) { retired = v }));
    free =
        ap (λ (r : HpRecord). r.free)
          (update_self gc.at this (record (gc.at this) { retired = v }));
  }

  pub put_vector-SameGuards :
      (deleted : List Retired) → SameGuards gc (record gc { at = put_vector; deleted = deleted })
  put_vector-SameGuards deleted = record {
    list = refl;
    hazard_count = refl;
    scan_type = refl;
    hzp = put_vector-hzp;
  }

  pub put_vector-retired : (put_vector this).retired ≡ v
  put_vector-retired =
      ap (λ (r : HpRecord). r.retired)
        (update_self gc.at this (record (gc.at this) { retired = v }))

filter-unguarded :
    (gc : GarbageCollector) (list : List Retired)
    → All (λ r. guarded gc r.ptr ≡ false) (filter (λ r. not (guarded gc r.ptr)) list)
filter-unguarded gc [] = tt
filter-unguarded gc (r ∷ rest) =
    if_elim (All (λ x. guarded gc x.ptr ≡ false)) (not (guarded gc r.ptr))
      (λ h. (ground (arith, h), filter-unguarded gc rest)) (λ _. filter-unguarded gc rest)

-- Three things that hold of each step on the record `this`; `more` are the pointers yet to come.
pub record Steps (this : ℕ) (more : List Retired) (gc gc' : GarbageCollector) : Type 0 where
  pub safe : Safe gc gc'
  pub only : Only this gc gc'
  pub room : HasRoom gc' this more

module _ (gc : GarbageCollector) (this : ℕ) (more : List Retired) where
  -- A scan of a vector of distinct pointers makes room.
  pub scan-Steps :
      Distinct key (items (gc.at this).retired ++ more)
      → length gc.list * gc.hazard_count < (gc.at this).retired.capacity
      → Steps this more gc (scan gc this)
  unfolding scan
  scan-Steps distinct enough =
      let (own, rest, cross) = Distinct-split key (items (gc.at this).retired) more distinct in
      let s : Scanned = record { vector = (gc.at this).retired; deleted = gc.deleted } in
      let c = scan_vector-Cleans gc.scan_type gc s own in
      let t : Scanned = scan_vector gc.scan_type gc s in
      let at_this = put_vector-retired gc this t.vector in
      let cap : t.vector.capacity ≡ (gc.at this).retired.capacity = c.splits.capacity in
      record {
        safe = record {
          same = put_vector-SameGuards gc this t.vector t.deleted;
          more = filter (λ r. not (guarded gc r.ptr)) c.from;
          deleted = c.splits.deleted;
          unguarded = filter-unguarded gc c.from;
        };
        only = put_vector-Only gc this t.vector t.deleted;
        room = record {
          distinct = rw at_this (
              Distinct-join key (items t.vector) more (Cleans-Distinct c) rest (
                rw (Cleans-items c) (
                  filter-All (λ x. All (λ y. x.ptr ≢ y.ptr) more) (λ r. guarded gc r.ptr) c.from
                    (c.all (λ x. All (λ y. x.ptr ≢ y.ptr) more) cross))));
          room = rw at_this (omega (arith, Cleans-size c, cap));
          enough = rw at_this (omega (arith, cap));
        };
      }
