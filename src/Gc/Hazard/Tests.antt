-- ===== src/Gc/Hazard/Tests.antt =====
-- The collector on a small list of two records: that of the thread 7, and one that was given up.
use temp_data_structure_benc.Prelude.{
  ℕ, ◌*◌, ◌≤◌, ◌+◌, ◌≡◌, refl, false, not, List, [], ◌∷◌, ◌++◌, ◌==◌, length, arith, if◌then◌else◌,
}
use mathlib.Core.List.{Perm}
use temp_data_structure_benc.Prelude.Sort.{filter, sort, store_cells}
use temp_data_structure_benc.Gc.Hazard.{
  Retired, RetiredVector, HpAllocator, HpRecord, ScanType, GarbageCollector, clear_vector,
  make_free_stack, allocate_hp_rec, detach_all,
}
use temp_data_structure_benc.Gc.Hazard.Slots.{Uses, IsValid, Uses-IsValid, make_free_stack-IsValid}
use temp_data_structure_benc.Gc.Hazard.Records.{Allocated, allocate_hp_rec_lem}
use temp_data_structure_benc.Gc.Hazard.Detach.{Detached, detach_all_lem}
use temp_data_structure_benc.Gc.Hazard.Scan.{
  Scanned, classic_scan, inplace_scan, scan_vector, help_scan, retire_ptr, destroy,
}
use temp_data_structure_benc.Gc.Hazard.Scan.Hazards.{guarded}
use temp_data_structure_benc.Gc.Hazard.Scan.Classic.{items, Splits, classic_scan_lem}
use temp_data_structure_benc.Gc.Hazard.Scan.Marks.{key}
use temp_data_structure_benc.Gc.Hazard.Scan.Inplace.{inplace_scan_lem}
use temp_data_structure_benc.Gc.Hazard.Scan.Room.{scan_room}
use temp_data_structure_benc.Gc.Hazard.Scan.Steps.{Safe, HasRoom}
use temp_data_structure_benc.Gc.Hazard.Scan.Help.{orphans}
use temp_data_structure_benc.Gc.Hazard.Scan.Orphans.{help_scan_lem, retire_ptr_lem}
use temp_data_structure_benc.Gc.Hazard.Scan.Destroy.{all_items, destroy_lem}

abbrev pointer : ℕ → Retired
pointer p = record { ptr = p; func_free = 1 }

abbrev vector : List Retired → RetiredVector
vector l = record { arr = store_cells (λ _. pointer 0) 0 l; size = length l; capacity = 6 }

-- Two guards, of which the upper one is in use.
abbrev guards : ℕ → HpAllocator
guards p = record { arr = λ i. if i == 1 then p else 0; top = 1; capacity = 2 }

abbrev own_record : HpRecord
own_record = record {
  hzp = guards 20;
  retired = vector (pointer 30 ∷ pointer 20 ∷ pointer 10 ∷ []);
  owner = 7;
  free = false;
}

abbrev given_up : HpRecord
given_up = record {
  hzp = record { arr = λ _. 0; top = 2; capacity = 2 };
  retired = vector (pointer 40 ∷ pointer 50 ∷ []);
  owner = 0;
  free = false;
}

abbrev two_records : ScanType → GarbageCollector
two_records scan_type = record {
  list = 1 ∷ 2 ∷ [];
  at = λ a. if a == 1 then own_record else given_up;
  hazard_count = 2;
  max_threads = 2;
  max_retired = 6;
  scan_type = scan_type;
  deleted = [];
}

abbrev own_vector : Scanned
own_vector = record { vector = own_record.retired; deleted = [] }

classic_scan_lem_example :
    Splits
      (record own_vector { vector = clear_vector own_record.retired })
      (classic_scan (two_records ScanType.classic) own_vector)
      (filter (λ r. guarded (two_records ScanType.classic) r.ptr) (items own_record.retired))
      (filter (λ r. not (guarded (two_records ScanType.classic) r.ptr)) (items own_record.retired))
classic_scan_lem_example = classic_scan_lem (two_records ScanType.classic) own_vector

inplace_scan_lem_example :
    Splits
      (record own_vector { vector = clear_vector own_record.retired })
      (inplace_scan (two_records ScanType.inplace) own_vector)
      (filter
        (λ r. guarded (two_records ScanType.inplace) r.ptr)
        (sort key (items own_record.retired)))
      (filter
        (λ r. not (guarded (two_records ScanType.inplace) r.ptr))
        (sort key (items own_record.retired)))
inplace_scan_lem_example =
    inplace_scan_lem (two_records ScanType.inplace) own_vector (omega arith) (omega arith)

abbrev own_scanned : Scanned
own_scanned = scan_vector ScanType.inplace (two_records ScanType.inplace) own_vector

scan_room_example :
    (own_scanned.vector.size ≤ 2 * 2)
    × (length own_scanned.deleted + own_scanned.vector.size ≡ 0 + 3)
    × (dropped : List Retired) × (own_scanned.deleted ≡ [] ++ dropped)
    × Perm (items own_scanned.vector ++ dropped) (items own_record.retired)
scan_room_example =
    scan_room ScanType.inplace (two_records ScanType.inplace) own_vector (omega arith)

help_scan_lem_example :
    Safe (two_records ScanType.inplace) (help_scan (λ t. t == 7) 7 1 (two_records ScanType.inplace))
    × HasRoom (help_scan (λ t. t == 7) 7 1 (two_records ScanType.inplace)) 1 []
    × (orphans
          (λ t. t == 7)
          (help_scan (λ t. t == 7) 7 1 (two_records ScanType.inplace))
          (1 ∷ 2 ∷ [])
        ≡ [])
help_scan_lem_example =
    help_scan_lem (λ t. t == 7) 7 1 (omega arith) refl (two_records ScanType.inplace) refl
      (omega arith) (record { distinct = omega arith; room = omega arith; enough = omega arith })

retire_ptr_lem_example :
    Safe
      (two_records ScanType.inplace)
      (retire_ptr (λ t. t == 7) 7 1 (pointer 60) (two_records ScanType.inplace))
    × HasRoom (retire_ptr (λ t. t == 7) 7 1 (pointer 60) (two_records ScanType.inplace)) 1 []
retire_ptr_lem_example =
    retire_ptr_lem (λ t. t == 7) 7 1 (omega arith) refl (two_records ScanType.inplace) (pointer 60)
      refl (omega arith)
      (record { distinct = omega arith; room = omega arith; enough = omega arith })

-- Two scopes, one in the other, each with a store to its guard.
abbrev memory : HpAllocator
memory = record { arr = λ _. 5; top = 0; capacity = 2 }

abbrev two_guards : HpAllocator
two_guards = make_free_stack memory

nested : (b : HpAllocator) × Uses two_guards b
nested = (
  _,
  Uses.scope {a = two_guards} (omega arith)
      (Uses.store 1 20 (omega arith)
        (Uses.scope (omega arith) (Uses.store 0 30 (omega arith) Uses.done) Uses.done))
      Uses.done,
)

Uses-IsValid_example : IsValid nested.0 × (nested.0.top ≡ 2)
Uses-IsValid_example = Uses-IsValid nested.1 (make_free_stack-IsValid memory (omega arith))

allocate_hp_rec_lem_example :
    Allocated 9 3
      (two_records ScanType.inplace)
      (allocate_hp_rec 9 3 (λ _. pointer 0) (two_records ScanType.inplace)).1
      (allocate_hp_rec 9 3 (λ _. pointer 0) (two_records ScanType.inplace)).0
allocate_hp_rec_lem_example =
    allocate_hp_rec_lem 9 3 (λ _. pointer 0) (two_records ScanType.inplace) refl

detach_all_lem_example :
    Detached (1 ∷ 2 ∷ []) (two_records ScanType.inplace) (detach_all (two_records ScanType.inplace))
detach_all_lem_example =
    detach_all_lem (two_records ScanType.inplace)
      (
        record { capacity = refl; idle = λ p e h. absurd (omega arith) },
        (record { capacity = refl; idle = λ p e h. ground arith }, tt),
      )
      (omega arith)

destroy_lem_example :
    (destroy (two_records ScanType.inplace)).deleted
    ≡ [] ++ all_items (two_records ScanType.inplace) (1 ∷ 2 ∷ [])
destroy_lem_example = destroy_lem (two_records ScanType.inplace) (omega arith)
