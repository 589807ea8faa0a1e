-- ===== src/Gc/Hazard/Scan/Destroy.antt =====
-- The end of the collector.
use temp_data_structure_benc.Prelude.{
  ℕ, zero, suc, ◌≡◌, ◌≢◌, refl, sym, ap, ap₂, ◌∙◌, true, List, [], ◌∷◌, ◌++◌, Array, update,
  update_ne, All, All-imp, append_assoc, append-nil,
}
use temp_data_structure_benc.Prelude.Sort.{cells, Distinct}
use temp_data_structure_benc.Gc.Hazard.{Retired, HpRecord, GarbageCollector, clear_vector}
use temp_data_structure_benc.Gc.Hazard.Scan.{delete_cells, destroy_loop, destroy}
use temp_data_structure_benc.Gc.Hazard.Scan.Classic.{items}

-- The retired pointers of all records of a list.
abbrev pub all_items : GarbageCollector → List ℕ → List Retired
all_items gc [] = []
all_items gc (a ∷ rest) = items (gc.at a).retired ++ all_items gc rest

all_items-same :
    (gc gc' : GarbageCollector) (list : List ℕ)
    → All (λ b. gc'.at b ≡ gc.at b) list
    → all_items gc' list ≡ all_items gc list
all_items-same gc gc' [] h = refl
all_items-same gc gc' (a ∷ rest) h =
    ap₂ (λ (r : HpRecord) (l : List Retired). items r.retired ++ l) h.0
      (all_items-same gc gc' rest h.1)

All-refl : (gc : GarbageCollector) (list : List ℕ) → All (λ b. gc.at b ≡ gc.at b) list
All-refl gc [] = tt
All-refl gc (a ∷ rest) = (refl, All-refl gc rest)

delete_cells_lem :
    (n i : ℕ) (arr : Array Retired) (deleted : List Retired)
    → delete_cells n i arr deleted ≡ deleted ++ cells arr i n
unfolding delete_cells
delete_cells_lem zero i arr deleted = sym (append-nil deleted)
delete_cells_lem (suc n) i arr deleted =
    delete_cells_lem n (suc i) arr (deleted ++ (arr i ∷ []))
    ∙ append_assoc deleted (arr i ∷ []) (cells arr (suc i) n)

destroy_loop_lem :
    (list : List ℕ) (gc : GarbageCollector)
    → Distinct (λ a. a) list
    → (destroy_loop list gc).deleted ≡ gc.deleted ++ all_items gc list
unfolding destroy_loop
destroy_loop_lem [] gc d = sym (append-nil gc.deleted)
destroy_loop_lem (a ∷ rest) gc d =
    let empty = record (gc.at a) { retired = clear_vector (gc.at a).retired; free = true } in
    let deleted = delete_cells (gc.at a).retired.size 0 (gc.at a).retired.arr gc.deleted in
    let gc' : GarbageCollector = record gc { deleted = deleted; at = update gc.at a empty } in
    destroy_loop_lem rest gc' d.1
    ∙ ap₂ ◌++◌ (delete_cells_lem (gc.at a).retired.size 0 (gc.at a).retired.arr gc.deleted)
        (all_items-same gc gc' rest (All-imp rest (λ b (ne : a ≢ b). update_ne gc.at empty ne) d.0))
    ∙ append_assoc gc.deleted (items (gc.at a).retired) (all_items gc rest)

-- The destructor deletes every retired pointer of every record once.
pub destroy_lem :
    (gc : GarbageCollector)
    → Distinct (λ a. a) gc.list
    → (destroy gc).deleted ≡ gc.deleted ++ all_items gc gc.list
unfolding destroy
destroy_lem gc d =
    destroy_loop_lem gc.list (record gc { list = [] }) d
    ∙ ap (λ l. gc.deleted ++ l)
        (all_items-same gc (record gc { list = [] }) gc.list (All-refl gc gc.list))
