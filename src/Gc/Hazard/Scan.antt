-- ===== src/Gc/Hazard/Scan.antt =====
-- The scans of src/hzp_gc.cpp, and their callers: HelpScan, retirePtr of hzp.h, the destructor.
pub mod Hazards
pub mod Classic
pub mod Marks
pub mod Inplace
pub mod Filters
pub mod Room
pub mod Steps
pub mod Help
pub mod Orphans
pub mod Destroy
use temp_data_structure_benc.Prelude.{
  ℕ, zero, suc, ◌+◌, ◌-◌, ◌*◌, ◌/◌, ◌%◌, ◌^◌, Bool, true, false, not, ◌||◌, ◌&&◌, List, [], ◌∷◌,
  ◌++◌, ltb, leb, ◌==◌, if◌then◌else◌, Array, update, length,
}
use temp_data_structure_benc.Prelude.Sort.{sort, binary_search, cells, store_cells}
use temp_data_structure_benc.Gc.Hazard.{
  Retired, RetiredVector, push, is_full, clear_vector, HpRecord, ScanType, classic, inplace,
  GarbageCollector,
}

-- Stage 1 of classic_scan: the guards of one record that are not NULL, from `i` on.
pub collect_guards : ℕ → ℕ → Array ℕ → List ℕ → List ℕ
collect_guards zero i hzp plist = plist
collect_guards (suc n) i hzp plist =
    collect_guards n (suc i) hzp (if hzp i == 0 then plist else plist ++ (hzp i ∷ []))

pub collect : GarbageCollector → List ℕ → List ℕ → List ℕ
collect gc [] plist = plist
collect gc (a ∷ rest) plist =
    collect gc rest (collect_guards gc.hazard_count 0 (gc.at a).hzp.arr plist)

-- A vector, and what has been deleted, in order.
pub record Scanned : Type 0 where
  pub vector : RetiredVector
  pub deleted : List Retired

-- Stage 2 of classic_scan: `n` items from the index `i` on; `push` writes to the same array.
pub classic_loop : ℕ → ℕ → List ℕ → Scanned → Scanned
classic_loop zero i plist s = s
classic_loop (suc n) i plist s =
    let r = s.vector.arr i in
    classic_loop n (suc i) plist (
      if binary_search plist r.ptr
      then record s { vector = push s.vector r }
      else record s { deleted = s.deleted ++ (r ∷ []) })

pub classic_scan : GarbageCollector → Scanned → Scanned
classic_scan gc s =
    classic_loop s.vector.size 0 (sort (λ p. p) (collect gc gc.list []))
      (record s { vector = clear_vector s.vector })

-- isMarkedBit<1>, markBit<1> and unmarkBit<1>: p & 1, p | 1 and p & ~1
abbrev pub is_marked : ℕ → Bool
is_marked p = not (p % 2 == 0)

abbrev pub mark_bit : ℕ → ℕ
mark_bit p = p - p % 2 + 1

abbrev pub unmark_bit : ℕ → ℕ
unmark_bit p = p - p % 2

pub any_marked : ℕ → ℕ → Array Retired → Bool
any_marked zero i arr = false
any_marked (suc n) i arr = is_marked (arr i).ptr || any_marked n (suc i) arr

-- std::lower_bound over `n` cells from `i` on
pub lower_bound : ℕ → ℕ → Array Retired → ℕ → ℕ
lower_bound zero i arr p = i
lower_bound (suc n) i arr p =
    let later = lower_bound n (suc i) arr p in if ltb (arr i).ptr p then later else i

-- One guard of inplace_scan: the retired pointer that it holds is marked.
pub mark_guard : ℕ → Array Retired → ℕ → Array Retired
mark_guard n arr hptr =
    let it = lower_bound n 0 arr hptr in
    if hptr == 0
    then arr
    else if ltb it n && ((arr it).ptr == hptr)
    then update arr it (record (arr it) { ptr = mark_bit (arr it).ptr })
    else arr

pub mark_guards : ℕ → ℕ → Array ℕ → ℕ → Array Retired → Array Retired
mark_guards zero i hzp n arr = arr
mark_guards (suc k) i hzp n arr = mark_guards k (suc i) hzp n (mark_guard n arr (hzp i))

pub mark_records : GarbageCollector → List ℕ → ℕ → Array Retired → Array Retired
mark_records gc [] n arr = arr
mark_records gc (a ∷ rest) n arr =
    mark_records gc rest n (mark_guards gc.hazard_count 0 (gc.at a).hzp.arr n arr)

-- The body of the last loop of inplace_scan, for the item at `i`; `vector.size` is `itInsert`.
abbrev pub compact_item : ℕ → Scanned → Retired → Scanned
compact_item i s it =
    let clean = record it { ptr = unmark_bit it.ptr } in
    if is_marked it.ptr
    then record s {
      vector = record (s.vector) {
        arr = update (update s.vector.arr i clean) s.vector.size clean;
        size = suc s.vector.size;
      };
    }
    else record s { deleted = s.deleted ++ (it ∷ []) }

pub compact_loop : ℕ → ℕ → Scanned → Scanned
compact_loop zero i s = s
compact_loop (suc n) i s = compact_loop n (suc i) (compact_item i s (s.vector.arr i))

pub inplace_scan : GarbageCollector → Scanned → Scanned
inplace_scan gc s =
    let n = s.vector.size in
    let sorted = store_cells s.vector.arr 0 (sort (λ r. r.ptr) (cells s.vector.arr 0 n)) in
    if any_marked n 0 s.vector.arr
    then classic_scan gc s
    else compact_loop n 0 (record s {
      vector = record (s.vector) { arr = mark_records gc gc.list n sorted; size = 0 };
    })

pub scan_vector : ScanType → GarbageCollector → Scanned → Scanned
scan_vector inplace gc s = inplace_scan gc s
scan_vector classic gc s = classic_scan gc s

-- Scan( pRec ), for the record at `a`.
pub scan : GarbageCollector → ℕ → GarbageCollector
scan gc a =
    let s =
      scan_vector gc.scan_type gc (record { vector = (gc.at a).retired; deleted = gc.deleted }) in
    record gc { at = update gc.at a (record (gc.at a) { retired = s.vector }); deleted = s.deleted }

abbrev pub push_retired : GarbageCollector → ℕ → Retired → GarbageCollector
push_retired gc a r = record gc {
  at = update gc.at a (record (gc.at a) { retired = push (gc.at a).retired r });
}

-- The inner loop of HelpScan: `n` pointers from the index `i` on, from the record `src` to `this`.
pub move_loop : ℕ → ℕ → ℕ → ℕ → GarbageCollector → GarbageCollector
move_loop zero i src this gc = gc
move_loop (suc n) i src this gc =
    let pushed = push_retired gc this ((gc.at src).retired.arr i) in
    move_loop n (suc i) src this
      (if is_full (pushed.at this).retired then scan pushed this else pushed)

-- The retired pointers of the record at `a` are taken over, and the record is given up.
pub take_over : ℕ → ℕ → GarbageCollector → ℕ → GarbageCollector
take_over tid this gc a =
    let owned = record gc { at = update gc.at a (record (gc.at a) { owner = tid }) } in
    let moved = move_loop (gc.at a).retired.size 0 a this owned in
    record moved {
      at = update moved.at a (record (moved.at a) {
        retired = clear_vector (moved.at a).retired;
        owner = 0;
        free = true;
      });
    }

-- One record of HelpScan by the thread `tid`, whose own is `this`. A compare and swap of the owner
-- with `curOwner` succeeds; one with NULL fails, since the owner is not NULL.
pub help_record : (ℕ → Bool) → ℕ → ℕ → GarbageCollector → ℕ → GarbageCollector
help_record alive tid this gc a =
    let owner = (gc.at a).owner in
    if (gc.at a).free
    then gc
    else if owner == 0 || not (alive owner)
    then take_over tid this gc a
    else gc

pub help_loop : (ℕ → Bool) → ℕ → ℕ → List ℕ → GarbageCollector → GarbageCollector
help_loop alive tid this [] gc = gc
help_loop alive tid this (a ∷ rest) gc =
    help_loop alive tid this rest (help_record alive tid this gc a)

pub help_scan : (ℕ → Bool) → ℕ → ℕ → GarbageCollector → GarbageCollector
help_scan alive tid this gc = help_loop alive tid this gc.list gc

-- retirePtr, by the thread `tid` with the record `this`.
pub retire_ptr : (ℕ → Bool) → ℕ → ℕ → Retired → GarbageCollector → GarbageCollector
retire_ptr alive tid this r gc =
    let pushed = push_retired gc this r in
    if is_full (pushed.at this).retired then help_scan alive tid this (scan pushed this) else pushed

-- The destructor: the retired pointers of every record are deleted.
pub delete_cells : ℕ → ℕ → Array Retired → List Retired → List Retired
delete_cells zero i arr deleted = deleted
delete_cells (suc n) i arr deleted = delete_cells n (suc i) arr (deleted ++ (arr i ∷ []))

pub destroy_loop : List ℕ → GarbageCollector → GarbageCollector
destroy_loop [] gc = gc
destroy_loop (a ∷ rest) gc = destroy_loop rest (record gc {
  deleted = delete_cells (gc.at a).retired.size 0 (gc.at a).retired.arr gc.deleted;
  at = update gc.at a (record (gc.at a) { retired = clear_vector (gc.at a).retired; free = true });
})

pub destroy : GarbageCollector → GarbageCollector
destroy gc = destroy_loop gc.list (record gc { list = [] })
