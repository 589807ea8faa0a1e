-- ===== src/Gc/Hazard/Scan/Marks.antt =====
-- The marks of inplace_scan: once all guards have been looked up, exactly the guarded pointers of a
-- sorted vector are marked.
use temp_data_structure_benc.Prelude.{
  ℕ, zero, suc, ◌+◌, ◌%◌, ◌≤◌, ◌<◌, ◌≡◌, ◌≢◌, refl, sym, ap, ap₂, ◌∙◌, Bool, true, false, List, [],
  ◌∷◌, ◌++◌, arith, if◌then◌else◌, if_elim, ltb, ◌==◌, ◌||◌, ◌&&◌, Bool-cases, inl, inr, Array,
  update, update_ne, update_self, All, All-imp, All-both,
}
use mathlib.Core.Path.{fun_ext}
use native.Mathlib.Decide.{dec_lt}
use temp_data_structure_benc.Prelude.Sort.{contains, cells, cells-update_below, Ascending}
use temp_data_structure_benc.Gc.Hazard.{Retired, GarbageCollector}
use temp_data_structure_benc.Gc.Hazard.Scan.{
  mark_bit, lower_bound, mark_guard, mark_guards, mark_records, collect, collect_guards,
}
use temp_data_structure_benc.Gc.Hazard.Scan.Hazards.{contains-append_one}

abbrev pub marked : Retired → Retired
marked r = record r { ptr = mark_bit r.ptr }

-- `mark_guard` as a walk over the items.
abbrev mark_first : ℕ → List Retired → List Retired
mark_first hptr [] = []
mark_first hptr (r ∷ rest) =
    let later = mark_first hptr rest in
    if ltb r.ptr hptr then r ∷ later else if r.ptr == hptr then marked r ∷ rest else r ∷ rest

-- The items that pass a test of their pointers are marked.
abbrev pub mark_those : (ℕ → Bool) → List Retired → List Retired
mark_those test [] = []
mark_those test (r ∷ rest) = (if test r.ptr then marked r else r) ∷ mark_those test rest

abbrev pub IsEven : Retired → Type 0
IsEven r = r.ptr % 2 ≡ 0

abbrev pub key : Retired → ℕ
key r = r.ptr

-- A pointer that none of the items is does not change which are marked.
mark_those-other :
    (test : ℕ → Bool) (hptr : ℕ) (rest : List Retired)
    → All (λ r. r.ptr ≢ hptr) rest
    → mark_those (λ p. hptr == p || test p) rest ≡ mark_those test rest
mark_those-other test hptr [] h = refl
mark_those-other test hptr (r ∷ rest) h =
    ap₂ ◌∷◌ (ground (arith, h.0)) (mark_those-other test hptr rest h.1)

-- One guard more is one pointer more that is marked.
mark_first-those :
    (test : ℕ → Bool) (hptr : ℕ) (items : List Retired)
    → All IsEven items
    → Ascending key items
    → mark_first hptr (mark_those test items) ≡ mark_those (λ p. hptr == p || test p) items
mark_first-those test hptr [] e a = refl
mark_first-those test hptr (r ∷ rest) e a =
    let later = mark_first-those test hptr rest e.1 a.1 in
    elim (dec_lt (r.ptr + 1) hptr) [
      | yes above ↦ elim (Bool-cases (test r.ptr)) [
        | inl t ↦ ground (arith, later, t)
        | inr f ↦ ground (arith, later, f)
      ]
      | no below ↦
          let other = mark_those-other test hptr rest (
            All-imp rest (λ x (p : (r.ptr < x.ptr) × (x.ptr % 2 ≡ 0)). omega (arith, p.0, p.1))
              (All-both (λ x. r.ptr < x.ptr) IsEven rest a.0 e.1)) in
          elim (Bool-cases (test r.ptr)) [
            | inl t ↦ ground (arith, later, other, t)
            | inr f ↦ ground (arith, later, other, f)
          ]
    ]

-- `mark_guard` walks over the cells.
lower_bound-ge : (n i : ℕ) (arr : Array Retired) (p : ℕ) → i ≤ lower_bound n i arr p
unfolding lower_bound
lower_bound-ge zero i arr p = omega arith
lower_bound-ge (suc n) i arr p = ground (arith, lower_bound-ge n (suc i) arr p)

-- The write of `mark_guard` at the place that std::lower_bound has found.
abbrev mark_at : Array Retired → ℕ → ℕ → ℕ → Array Retired
mark_at arr end hptr it =
    if ltb it end && ((arr it).ptr == hptr) then update arr it (marked (arr it)) else arr

mark_at_later :
    (arr : Array Retired) (end hptr it i : ℕ) → i < it → mark_at arr end hptr it i ≡ arr i
mark_at_later arr end hptr it i h =
    if_elim (λ (a : Array Retired). a i ≡ arr i) (ltb it end && ((arr it).ptr == hptr))
      (λ _. update_ne arr (marked (arr it)) (λ (e : it ≡ i). absurd (omega arith))) (λ _. refl)

cells-mark_here :
    (n i end : ℕ) (arr : Array Retired) (hptr : ℕ)
    → i < end
    → cells (mark_at arr end hptr i) i (suc n)
      ≡ (if (arr i).ptr == hptr then marked (arr i) ∷ cells arr (suc i) n else cells arr i (suc n))
cells-mark_here n i end arr hptr h = elim (Bool-cases ((arr i).ptr == hptr)) [
  | inl found ↦ rw (ap (λ a. cells a i (suc n)) (at_update found)) (
      rw found (
        ap₂ ◌∷◌ (update_self arr i (marked (arr i)))
          (cells-update_below arr i (marked (arr i)) (suc i) n (omega arith))))
  | inr other ↦ rw (ap (λ a. cells a i (suc n)) (at_arr other)) (rw other refl)
]
  where
    at_update :
        ((arr i).ptr == hptr) ≡ true → mark_at arr end hptr i ≡ update arr i (marked (arr i))
    at_update found = ground (arith, found)

    at_arr : ((arr i).ptr == hptr) ≡ false → mark_at arr end hptr i ≡ arr
    at_arr other = ground (arith, other)

lower_bound_below :
    (n i : ℕ) (arr : Array Retired) (p : ℕ)
    → ltb (arr i).ptr p ≡ true
    → lower_bound (suc n) i arr p ≡ lower_bound n (suc i) arr p
unfolding lower_bound
lower_bound_below n i arr p h = rw h

lower_bound_here :
    (n i : ℕ) (arr : Array Retired) (p : ℕ)
    → ltb (arr i).ptr p ≡ false
    → lower_bound (suc n) i arr p ≡ i
unfolding lower_bound
lower_bound_here n i arr p h = rw h

mark_first_below :
    (r : Retired) (rest : List Retired) (p : ℕ)
    → ltb r.ptr p ≡ true
    → mark_first p (r ∷ rest) ≡ r ∷ mark_first p rest
mark_first_below r rest p h = rw h

mark_first_here :
    (r : Retired) (rest : List Retired) (p : ℕ)
    → ltb r.ptr p ≡ false
    → mark_first p (r ∷ rest) ≡ (if r.ptr == p then marked r ∷ rest else r ∷ rest)
mark_first_here r rest p h = rw h

cells-mark_at :
    (n i end : ℕ) (arr : Array Retired) (hptr : ℕ)
    → end ≡ i + n
    → cells (mark_at arr end hptr (lower_bound n i arr hptr)) i n ≡ mark_first hptr (cells arr i n)
cells-mark_at zero i end arr hptr e = refl
cells-mark_at (suc n) i end arr hptr e = elim (Bool-cases (ltb (arr i).ptr hptr)) [
  | inl below ↦
      ap (λ it. cells (mark_at arr end hptr it) i (suc n)) (lower_bound_below n i arr hptr below)
      ∙ ap₂ ◌∷◌
          (mark_at_later arr end hptr (lower_bound n (suc i) arr hptr) i
            (omega (arith, lower_bound-ge n (suc i) arr hptr)))
          (cells-mark_at n (suc i) end arr hptr (omega arith))
      ∙ sym (mark_first_below (arr i) (cells arr (suc i) n) hptr below)
  | inr here ↦
      ap (λ it. cells (mark_at arr end hptr it) i (suc n)) (lower_bound_here n i arr hptr here)
      ∙ cells-mark_here n i end arr hptr (omega arith)
      ∙ sym (mark_first_here (arr i) (cells arr (suc i) n) hptr here)
]

-- `arr` has the items in its first `n` cells, and those that are in the list are marked.
abbrev pub MarkedBy : ℕ → List Retired → Array Retired → List ℕ → Type 0
MarkedBy n items arr plist = cells arr 0 n ≡ mark_those (contains plist) items

module _ (n : ℕ) (items : List Retired) (even : All IsEven items) (asc : Ascending key items) where
  mark_guard-MarkedBy :
      (arr : Array Retired) (hptr : ℕ) (plist : List ℕ)
      → MarkedBy n items arr plist
      → MarkedBy n items (mark_guard n arr hptr) (if hptr == 0 then plist else plist ++ (hptr ∷ []))
  unfolding mark_guard
  mark_guard-MarkedBy arr hptr plist e = elim (Bool-cases (hptr == 0)) [
    | inl null ↦ rw null e
    | inr some_ptr ↦ rw some_ptr (
        cells-mark_at n 0 n arr hptr (omega arith)
        ∙ ap (mark_first hptr) e
        ∙ mark_first-those (contains plist) hptr items even asc
        ∙ ap (λ test. mark_those test items)
            (fun_ext (λ p. ground (arith, contains-append_one plist hptr p))))
  ]

  mark_guards-MarkedBy :
      (k i : ℕ) (hzp : Array ℕ) (arr : Array Retired) (plist : List ℕ)
      → MarkedBy n items arr plist
      → MarkedBy n items (mark_guards k i hzp n arr) (collect_guards k i hzp plist)
  unfolding mark_guards collect_guards
  mark_guards-MarkedBy zero i hzp arr plist e = e
  mark_guards-MarkedBy (suc k) i hzp arr plist e =
      mark_guards-MarkedBy k (suc i) hzp (mark_guard n arr (hzp i)) _
        (mark_guard-MarkedBy arr (hzp i) plist e)

  -- The marks of all records are those of the pointers that classic_scan collects.
  pub mark_records-MarkedBy :
      (gc : GarbageCollector) (list : List ℕ) (arr : Array Retired) (plist : List ℕ)
      → MarkedBy n items arr plist
      → MarkedBy n items (mark_records gc list n arr) (collect gc list plist)
  unfolding mark_records collect
  mark_records-MarkedBy gc [] arr plist e = e
  mark_records-MarkedBy gc (a ∷ rest) arr plist e =
      mark_records-MarkedBy gc rest _ _
        (mark_guards-MarkedBy gc.hazard_count 0 (gc.at a).hzp.arr arr plist e)
