-- ===== src/Gc/Hazard/Scan/Hazards.antt =====
-- The pointers that the records guard, and that the scans collect.
use temp_data_structure_benc.Prelude.{
  ℕ, zero, suc, ◌≡◌, ◌≢◌, ◌⊎◌, ◌↔◌, Bool, true, false, not, ◌||◌, ◌&&◌, List, [], ◌∷◌, ◌++◌, arith,
  ◌==◌, Array,
}
use mathlib.Core.Path.{fun_ext}
use temp_data_structure_benc.Prelude.Sort.{contains}
use temp_data_structure_benc.Gc.Hazard.{GarbageCollector}
use temp_data_structure_benc.Gc.Hazard.Scan.{collect_guards, collect}

-- Does the pointer stand in one of `n` cells from `i` on?
abbrev pub stands_in : Array ℕ → ℕ → ℕ → ℕ → Bool
stands_in hzp i zero p = false
stands_in hzp i (suc n) p = hzp i == p || stands_in hzp (suc i) n p

-- Is the pointer not NULL, and does it stand in a guard of one of the records?
abbrev pub guarded_by : GarbageCollector → List ℕ → ℕ → Bool
guarded_by gc [] p = false
guarded_by gc (a ∷ rest) p =
    not (p == 0) && stands_in (gc.at a).hzp.arr 0 gc.hazard_count p || guarded_by gc rest p

-- Does some record of the collector's list guard the pointer?
abbrev pub guarded : GarbageCollector → ℕ → Bool
guarded gc p = guarded_by gc gc.list p

-- The pointer is not NULL and stands in one of `n` cells from `i` on.
abbrev pub Holds : Array ℕ → ℕ → ℕ → ℕ → Type 0
Holds hzp i zero p = ⊥
Holds hzp i (suc n) p = ((p ≢ 0) × (hzp i ≡ p)) ⊎ Holds hzp (suc i) n p

-- The pointer stands in a guard of one of the records.
abbrev pub Guards : GarbageCollector → List ℕ → ℕ → Type 0
Guards gc [] p = ⊥
Guards gc (a ∷ rest) p = Holds (gc.at a).hzp.arr 0 gc.hazard_count p ⊎ Guards gc rest p

pub contains-append_one :
    (xs : List ℕ) (x p : ℕ) → contains (xs ++ (x ∷ [])) p ≡ (contains xs p || x == p)
contains-append_one [] x p = ground arith
contains-append_one (y ∷ ys) x p = ground (arith, contains-append_one ys x p)

contains-collect_guards :
    (n i : ℕ) (hzp : Array ℕ) (plist : List ℕ) (p : ℕ)
    → contains (collect_guards n i hzp plist) p
      ≡ (contains plist p || not (p == 0) && stands_in hzp i n p)
unfolding collect_guards
contains-collect_guards zero i hzp plist p = ground arith
contains-collect_guards (suc n) i hzp plist p = ground (
  arith,
  contains-collect_guards n (suc i) hzp plist p,
  contains-collect_guards n (suc i) hzp (plist ++ (hzp i ∷ [])) p,
  contains-append_one plist (hzp i) p,
)

contains-collect :
    (gc : GarbageCollector) (list plist : List ℕ) (p : ℕ)
    → contains (collect gc list plist) p ≡ (contains plist p || guarded_by gc list p)
unfolding collect
contains-collect gc [] plist p = ground arith
contains-collect gc (a ∷ rest) plist p = ground (
  arith,
  contains-collect gc rest (collect_guards gc.hazard_count 0 (gc.at a).hzp.arr plist) p,
  contains-collect_guards gc.hazard_count 0 (gc.at a).hzp.arr plist p,
)

-- The list that classic_scan collects has exactly the pointers that some record guards.
pub collect-guarded : (gc : GarbageCollector) → contains (collect gc gc.list []) ≡ guarded gc
collect-guarded gc = fun_ext (contains-collect gc gc.list [])

stands_in_iff :
    (n i : ℕ) (hzp : Array ℕ) (p : ℕ)
    → ((not (p == 0) && stands_in hzp i n p) ≡ true) ↔ Holds hzp i n p
stands_in_iff zero i hzp p = ground arith
stands_in_iff (suc n) i hzp p = ground (arith, stands_in_iff n (suc i) hzp p)

guarded_by_iff :
    (gc : GarbageCollector) (list : List ℕ) (p : ℕ)
    → (guarded_by gc list p ≡ true) ↔ Guards gc list p
guarded_by_iff gc [] p = ground arith
guarded_by_iff gc (a ∷ rest) p =
    ground (arith, guarded_by_iff gc rest p, stands_in_iff gc.hazard_count 0 (gc.at a).hzp.arr p)

-- The test is true of the pointers that stand in a guard of a record, and of no others.
pub guarded_iff : (gc : GarbageCollector) (p : ℕ) → (guarded gc p ≡ true) ↔ Guards gc gc.list p
guarded_iff gc p = guarded_by_iff gc gc.list p
