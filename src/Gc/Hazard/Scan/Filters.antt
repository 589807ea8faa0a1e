-- ===== src/Gc/Hazard/Scan/Filters.antt =====
-- What a filter leaves of a list of retired pointers.
use temp_data_structure_benc.Prelude.{
  ℕ, suc, ◌+◌, ◌≤◌, ◌≡◌, ◌≢◌, Bool, true, not, List, [], ◌∷◌, ◌++◌, arith, if◌then◌else◌, if_elim,
  ◌==◌, Bool-cases, inl, inr, All, All-imp, All-both, length,
}
use mathlib.Core.List.{Perm, perm_middle}
use mathlib.Core.List.Perm
use temp_data_structure_benc.Prelude.Sort.{contains, filter, Distinct}
use temp_data_structure_benc.Gc.Hazard.{Retired}
use temp_data_structure_benc.Gc.Hazard.Scan.{}
use temp_data_structure_benc.Gc.Hazard.Scan.Marks.{key}

remove : ℕ → List ℕ → List ℕ
remove k [] = []
remove k (x ∷ xs) = let rest = remove k xs in if x == k then xs else x ∷ rest

length-remove :
    (k : ℕ) (xs : List ℕ) → contains xs k ≡ true → suc (length (remove k xs)) ≡ length xs
unfolding remove
length-remove k [] h = absurd (ground arith)
length-remove k (x ∷ xs) h = ground (arith, length-remove k xs)

contains-remove :
    (k j : ℕ) (xs : List ℕ) → k ≢ j → contains xs j ≡ true → contains (remove k xs) j ≡ true
unfolding remove
contains-remove k j [] ne h = h
contains-remove k j (x ∷ xs) ne h = ground (arith, contains-remove k j xs ne)

-- As many distinct items as the list has numbers for them, at most.
pub length-Distinct :
    (list : List Retired) (plist : List ℕ)
    → Distinct key list
    → All (λ r. contains plist r.ptr ≡ true) list
    → length list ≤ length plist
length-Distinct [] plist d h = omega arith
length-Distinct (r ∷ rest) plist d h =
    let fits = length-Distinct rest (remove r.ptr plist) d.1 (
      All-imp rest
        (λ x (p : (r.ptr ≢ x.ptr) × (contains plist x.ptr ≡ true)).
          contains-remove r.ptr x.ptr plist p.0 p.1)
        (All-both (λ x. r.ptr ≢ x.ptr) (λ x. contains plist x.ptr ≡ true) rest d.0 h.1)) in
    omega (arith, length-remove r.ptr plist h.0)

pub All-filter :
    (test : Retired → Bool) (list : List Retired) → All (λ r. test r ≡ true) (filter test list)
All-filter test [] = tt
All-filter test (r ∷ rest) =
    if_elim (All (λ r. test r ≡ true)) (test r) (λ t. (t, All-filter test rest))
      (λ _. All-filter test rest)

pub filter-All {κ} :
    (P : Retired → Type κ) (test : Retired → Bool) (list : List Retired)
    → All P list
    → All P (filter test list)
filter-All P test [] h = tt
filter-All P test (r ∷ rest) h =
    if_elim (All P) (test r) (λ t. (h.0, filter-All P test rest h.1))
      (λ _. filter-All P test rest h.1)

pub filter-Distinct :
    (test : Retired → Bool) (list : List Retired)
    → Distinct key list
    → Distinct key (filter test list)
filter-Distinct test [] h = tt
filter-Distinct test (r ∷ rest) h =
    if_elim (Distinct key) (test r)
      (λ t. (filter-All (λ x. r.ptr ≢ x.ptr) test rest h.0, filter-Distinct test rest h.1))
      (λ _. filter-Distinct test rest h.1)

pub filter_parts-Perm :
    (test : Retired → Bool) (list : List Retired)
    → Perm (filter test list ++ filter (λ r. not (test r)) list) list
filter_parts-Perm test [] = Perm.nil
filter_parts-Perm test (r ∷ rest) =
    let kept = filter test rest in
    let dropped = filter (λ x. not (test x)) rest in
    let later : Perm (kept ++ dropped) rest = filter_parts-Perm test rest in
    elim (Bool-cases (test r)) [
      | inl t ↦ rw t (Perm.cons r later)
      | inr f ↦ rw f (Perm.trans (perm_middle kept dropped) (Perm.cons r later))
    ]

pub length-filter_parts :
    (test : Retired → Bool) (list : List Retired)
    → length (filter test list) + length (filter (λ r. not (test r)) list) ≡ length list
length-filter_parts test [] = omega arith
length-filter_parts test (r ∷ rest) = ground (arith, length-filter_parts test rest)
