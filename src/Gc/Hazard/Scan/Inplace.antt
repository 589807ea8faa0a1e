-- ===== src/Gc/Hazard/Scan/Inplace.antt =====
-- inplace_scan does what classic_scan does, on the sorted vector.
use temp_data_structure_benc.Prelude.{
  ℕ, zero, suc, ◌+◌, ◌≤◌, ◌≡◌, refl, sym, ap, ◌∙◌, Bool, true, false, not, List, [], ◌∷◌, ◌++◌,
  arith, if◌then◌else◌, Bool-cases, inl, inr, Array, update, All, length,
}
use mathlib.Core.Path.{subst}
use temp_data_structure_benc.Prelude.Sort.{
  contains, filter, cells, cells-update_below, cells-update_above, cells-update_past, Distinct,
  length-cells, sort, length-sort, sort-Ascending, All-sort, store_cells, cells-store,
}
use temp_data_structure_benc.Gc.Hazard.{Retired, clear_vector, GarbageCollector}
use temp_data_structure_benc.Gc.Hazard.Scan.{
  Scanned, mark_bit, unmark_bit, is_marked, compact_item, compact_loop, any_marked, inplace_scan,
  classic_scan, mark_records, collect,
}
use temp_data_structure_benc.Gc.Hazard.Scan.Hazards.{guarded, collect-guarded}
use temp_data_structure_benc.Gc.Hazard.Scan.Classic.{
  items, Splits, Splits-nil, Splits-keep, Splits-drop,
}
use temp_data_structure_benc.Gc.Hazard.Scan.Marks.{
  marked, mark_those, IsEven, key, mark_records-MarkedBy,
}

-- A marked item is kept as it was before the mark.
abbrev keep_item : ℕ → Scanned → Retired → Scanned
keep_item i s r = record s {
  vector = record (s.vector) {
    arr = update (update s.vector.arr i r) s.vector.size r;
    size = suc s.vector.size;
  };
}

compact_item-marked :
    (i : ℕ) (s : Scanned) (r : Retired) → IsEven r → compact_item i s (marked r) ≡ keep_item i s r
compact_item-marked i s r even =
    let odd : is_marked (mark_bit r.ptr) ≡ true = ground arith in
    let back : unmark_bit (mark_bit r.ptr) ≡ r.ptr = omega arith in
    rw odd (ap (λ p. keep_item i s (record r { ptr = p })) back)

compact_item-plain :
    (i : ℕ) (s : Scanned) (r : Retired)
    → IsEven r
    → compact_item i s r ≡ record s { deleted = s.deleted ++ (r ∷ []) }
compact_item-plain i s r even = let plain : is_marked r.ptr ≡ false = ground arith in rw plain refl

module _ (i : ℕ) (s : Scanned) (r : Retired) (le : s.vector.size ≤ i) where
  keep_item-items : items (keep_item i s r).vector ≡ items s.vector ++ (r ∷ [])
  keep_item-items =
      ap (λ k. cells (update (update s.vector.arr i r) k r) 0 (suc s.vector.size))
        {x = s.vector.size} {y = 0 + s.vector.size} (omega arith)
      ∙ cells-update_past (update s.vector.arr i r) r 0 s.vector.size
      ∙ ap (λ l. l ++ (r ∷ [])) (cells-update_above s.vector.arr i r 0 s.vector.size (omega arith))

  keep_item-later :
      (n : ℕ) → cells (keep_item i s r).vector.arr (suc i) n ≡ cells s.vector.arr (suc i) n
  keep_item-later n =
      cells-update_below (update s.vector.arr i r) s.vector.size r (suc i) n (omega arith)
      ∙ cells-update_below s.vector.arr i r (suc i) n (omega arith)

compact_loop_lem :
    (n i : ℕ) (test : ℕ → Bool) (list : List Retired) (s : Scanned)
    → s.vector.size ≤ i
    → All IsEven list
    → cells s.vector.arr i n ≡ mark_those test list
    → Splits s
        (compact_loop n i s)
        (filter (λ r. test r.ptr) list)
        (filter (λ r. not (test r.ptr)) list)
unfolding compact_loop
compact_loop_lem zero i test [] s le even e = Splits-nil s
compact_loop_lem zero i test (r ∷ list) s le even e = absurd (omega (arith, ap length e))
compact_loop_lem (suc n) i test [] s le even e = absurd (omega (arith, ap length e))
compact_loop_lem (suc n) i test (r ∷ list) s le even e =
    let here : s.vector.arr i ≡ (if test r.ptr then marked r else r) = cc in
    let later : cells s.vector.arr (suc i) n ≡ mark_those test list = cc in
    elim (Bool-cases (test r.ptr)) [
      | inl kept ↦ rw kept (
          Splits-keep {s = s} {t = keep_item i s r} r (keep_item-items i s r le) refl refl (
            subst
              (λ u.
                Splits (keep_item i s r) (compact_loop n (suc i) u) (filter (λ r. test r.ptr) list)
                  (filter (λ r. not (test r.ptr)) list))
              (sym
                (ap (compact_item i s) (here ∙ (rw kept refl)) ∙ compact_item-marked i s r even.0))
              (compact_loop_lem n (suc i) test list (keep_item i s r) (omega arith) even.1
                (keep_item-later i s r le n ∙ later))))
      | inr dropped ↦ rw dropped (
          Splits-drop {s = s} {t = record s { deleted = s.deleted ++ (r ∷ []) }} r refl refl refl (
            subst
              (λ u.
                Splits (record s { deleted = s.deleted ++ (r ∷ []) }) (compact_loop n (suc i) u)
                  (filter (λ r. test r.ptr) list) (filter (λ r. not (test r.ptr)) list))
              (sym (
                ap (compact_item i s) (here ∙ (rw dropped refl)) ∙ compact_item-plain i s r even.0))
              (compact_loop_lem n (suc i) test list (record s { deleted = s.deleted ++ (r ∷ []) })
                (omega arith) even.1 later)))
    ]

any_marked-IsEven :
    (n i : ℕ) (arr : Array Retired) → All IsEven (cells arr i n) → any_marked n i arr ≡ false
unfolding any_marked
any_marked-IsEven zero i arr h = refl
any_marked-IsEven (suc n) i arr h = ground (arith, h.0, any_marked-IsEven n (suc i) arr h.1)

mark_those-none : (list : List Retired) → mark_those (contains []) list ≡ list
mark_those-none [] = refl
mark_those-none (r ∷ rest) = ap (λ l. r ∷ l) (mark_those-none rest)

-- Where every retired pointer is aligned to two bytes and none is retired twice, inplace_scan keeps
-- the retired pointers that some record guards, without their marks, and deletes the others, both in
-- the order of their addresses.
pub inplace_scan_lem :
    (gc : GarbageCollector) (s : Scanned)
    → All IsEven (items s.vector)
    → Distinct key (items s.vector)
    → Splits
        (record s { vector = clear_vector s.vector })
        (inplace_scan gc s)
        (filter (λ r. guarded gc r.ptr) (sort key (items s.vector)))
        (filter (λ r. not (guarded gc r.ptr)) (sort key (items s.vector)))
unfolding inplace_scan
inplace_scan_lem gc s even distinct =
    subst
      (λ test.
        Splits (record s { vector = clear_vector s.vector }) (inplace_scan gc s)
          (filter (λ r. test r.ptr) in_order) (filter (λ r. not (test r.ptr)) in_order))
      (collect-guarded gc)
      (rw (any_marked-IsEven s.vector.size 0 s.vector.arr even) (
        Splits-arr (
          compact_loop_lem s.vector.size 0 (contains (collect gc gc.list [])) in_order
            (record s { vector = record (s.vector) { arr = arr'; size = 0 } }) (omega arith)
            sorted_even
            (mark_records-MarkedBy s.vector.size in_order sorted_even
              (sort-Ascending key (items s.vector) distinct) gc gc.list sorted []
              (stored ∙ sym (mark_those-none in_order))))))
  where
    in_order : List Retired
    in_order = sort key (items s.vector)

    sorted : Array Retired
    sorted = store_cells s.vector.arr 0 in_order

    arr' : Array Retired
    arr' = mark_records gc gc.list s.vector.size sorted

    sorted_even : All IsEven in_order
    sorted_even = All-sort IsEven key (items s.vector) even

    stored : cells sorted 0 s.vector.size ≡ in_order
    stored =
        ap (cells sorted 0)
          (sym (length-sort key (items s.vector) ∙ length-cells s.vector.arr 0 s.vector.size))
        ∙ cells-store s.vector.arr 0 in_order

    Splits-arr :
        {t : Scanned} {kept dropped : List Retired}
        → Splits (record s { vector = record (s.vector) { arr = arr'; size = 0 } }) t kept dropped
        → Splits (record s { vector = clear_vector s.vector }) t kept dropped
    Splits-arr v = record { items = v.items; deleted = v.deleted; capacity = v.capacity }

-- Where a pointer is odd, it is classic_scan that runs.
pub inplace_scan_odd :
    (gc : GarbageCollector) (s : Scanned)
    → any_marked s.vector.size 0 s.vector.arr ≡ true
    → inplace_scan gc s ≡ classic_scan gc s
unfolding inplace_scan
inplace_scan_odd gc s odd = rw odd refl
