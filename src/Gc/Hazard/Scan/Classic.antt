-- ===== src/Gc/Hazard/Scan/Classic.antt =====
-- What classic_scan deletes and keeps.
use temp_data_structure_benc.Prelude.{
  ℕ, zero, suc, ◌+◌, ◌≤◌, ◌≡◌, refl, sym, ap, ◌∙◌, not, List, [], ◌∷◌, ◌++◌, arith, append_assoc,
  append-nil, update, Bool-cases, inl, inr,
}
use mathlib.Core.Path.{subst, fun_ext}
use temp_data_structure_benc.Prelude.Sort.{
  filter, cells, cells-update_below, cells-update_past, sort, binary_search, binary_search-sort,
}
use temp_data_structure_benc.Gc.Hazard.{
  Retired, RetiredVector, push, clear_vector, GarbageCollector,
}
use temp_data_structure_benc.Gc.Hazard.Scan.{collect, Scanned, classic_loop, classic_scan}
use temp_data_structure_benc.Gc.Hazard.Scan.Hazards.{guarded, collect-guarded}

abbrev pub items : RetiredVector → List Retired
items v = cells v.arr 0 v.size

pub items-push : (v : RetiredVector) (r : Retired) → items (push v r) ≡ items v ++ (r ∷ [])
items-push v r =
    ap (λ i. cells (update v.arr i r) 0 (suc v.size)) {x = v.size} {y = 0 + v.size} (omega arith)
    ∙ cells-update_past v.arr r 0 v.size

-- A scan has kept these items and deleted those.
pub record Splits (s t : Scanned) (kept dropped : List Retired) : Type 0 where
  pub items : items t.vector ≡ items s.vector ++ kept
  pub deleted : t.deleted ≡ s.deleted ++ dropped
  pub capacity : t.vector.capacity ≡ s.vector.capacity

pub Splits-nil : (s : Scanned) → Splits s s [] []
Splits-nil s = record {
  items = sym (append-nil (items s.vector));
  deleted = sym (append-nil s.deleted);
  capacity = refl;
}

-- One more item, before those of the rest of the loop.
pub Splits-keep :
    {s t u : Scanned} {kept dropped : List Retired} (r : Retired)
    → items t.vector ≡ items s.vector ++ (r ∷ [])
    → t.deleted ≡ s.deleted
    → t.vector.capacity ≡ s.vector.capacity
    → Splits t u kept dropped
    → Splits s u (r ∷ kept) dropped
Splits-keep {s} {kept = kept} {dropped} r e d c v = record {
  items = v.items ∙ ap (λ l. l ++ kept) e ∙ append_assoc (items s.vector) (r ∷ []) kept;
  deleted = v.deleted ∙ ap (λ l. l ++ dropped) d;
  capacity = v.capacity ∙ c;
}

pub Splits-drop :
    {s t u : Scanned} {kept dropped : List Retired} (r : Retired)
    → items t.vector ≡ items s.vector
    → t.deleted ≡ s.deleted ++ (r ∷ [])
    → t.vector.capacity ≡ s.vector.capacity
    → Splits t u kept dropped
    → Splits s u kept (r ∷ dropped)
Splits-drop {s} {kept = kept} {dropped} r e d c v = record {
  items = v.items ∙ ap (λ l. l ++ kept) e;
  deleted = v.deleted ∙ ap (λ l. l ++ dropped) d ∙ append_assoc s.deleted (r ∷ []) dropped;
  capacity = v.capacity ∙ c;
}

-- The loop reads each item before `push` writes over it.
pub classic_loop_lem :
    (n i : ℕ) (plist : List ℕ) (s : Scanned)
    → s.vector.size ≤ i
    → Splits s
        (classic_loop n i plist s)
        (filter (λ r. binary_search plist r.ptr) (cells s.vector.arr i n))
        (filter (λ r. not (binary_search plist r.ptr)) (cells s.vector.arr i n))
unfolding classic_loop
classic_loop_lem zero i plist s h = Splits-nil s
classic_loop_lem (suc n) i plist s h =
    let r = s.vector.arr i in
    elim (Bool-cases (binary_search plist r.ptr)) [
      | inl yes_guarded ↦ rw yes_guarded (
          Splits-keep {s = s} {t = record s { vector = push s.vector r }} r (items-push s.vector r)
            refl refl
            (subst
              (λ l.
                Splits (record s { vector = push s.vector r })
                  (classic_loop n (suc i) plist (record s { vector = push s.vector r }))
                  (filter (λ r. binary_search plist r.ptr) l)
                  (filter (λ r. not (binary_search plist r.ptr)) l))
              (cells-update_below s.vector.arr s.vector.size r (suc i) n (omega arith))
              (classic_loop_lem n (suc i) plist (record s { vector = push s.vector r })
                (omega arith))))
      | inr not_guarded ↦ rw not_guarded (
          Splits-drop {s = s} {t = record s { deleted = s.deleted ++ (r ∷ []) }} r refl refl refl (
            classic_loop_lem n (suc i) plist (record s { deleted = s.deleted ++ (r ∷ []) })
              (omega arith)))
    ]

-- classic_scan keeps, in order, the retired pointers that are not NULL and stand in a guard of some
-- record of the list, and deletes, in order, the others.
pub classic_scan_lem :
    (gc : GarbageCollector) (s : Scanned)
    → Splits
        (record s { vector = clear_vector s.vector })
        (classic_scan gc s)
        (filter (λ r. guarded gc r.ptr) (items s.vector))
        (filter (λ r. not (guarded gc r.ptr)) (items s.vector))
unfolding classic_scan
classic_scan_lem gc s =
    subst
      (λ test.
        Splits (record s { vector = clear_vector s.vector }) (classic_scan gc s)
          (filter (λ r. test r.ptr) (items s.vector))
          (filter (λ r. not (test r.ptr)) (items s.vector)))
      (fun_ext (binary_search-sort (collect gc gc.list [])) ∙ collect-guarded gc)
      (classic_loop_lem s.vector.size 0 (sort (λ p. p) (collect gc gc.list []))
        (record s { vector = clear_vector s.vector }) (omega arith))
