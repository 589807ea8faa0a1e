-- ===== src/Gc/Hazard/Scan/Room.antt =====
-- A scan leaves at most one retired pointer for each guard, so it makes room.
use temp_data_structure_benc.Prelude.{
  ℕ, zero, suc, ◌+◌, ◌*◌, ◌≤◌, ◌≡◌, sym, ap, ◌∙◌, true, false, not, List, [], ◌∷◌, ◌++◌, arith,
  if◌then◌else◌, ◌==◌, Bool-cases, inl, inr, Array, All, length, length-append,
}
use mathlib.Core.Path.{subst}
use mathlib.Core.List.{Perm}
use mathlib.Core.List.Perm
use temp_data_structure_benc.Prelude.Sort.{
  filter, cells, Distinct, length-cells, sort, length-sort, All-sort, sort-Distinct, sort-Perm,
}
use temp_data_structure_benc.Gc.Hazard.{
  Retired, clear_vector, ScanType, classic, inplace, GarbageCollector,
}
use temp_data_structure_benc.Gc.Hazard.Scan.{
  Scanned, collect_guards, collect, any_marked, classic_scan, inplace_scan, scan_vector,
}
use temp_data_structure_benc.Gc.Hazard.Scan.Hazards.{guarded, collect-guarded}
use temp_data_structure_benc.Gc.Hazard.Scan.Classic.{items, Splits, classic_scan_lem}
use temp_data_structure_benc.Gc.Hazard.Scan.Marks.{IsEven, key}
use temp_data_structure_benc.Gc.Hazard.Scan.Inplace.{inplace_scan_lem, inplace_scan_odd}
use temp_data_structure_benc.Gc.Hazard.Scan.Filters.{
  length-Distinct, All-filter, filter-Distinct, filter_parts-Perm, length-filter_parts,
}

length-collect_guards :
    (k i : ℕ) (hzp : Array ℕ) (plist : List ℕ)
    → length (collect_guards k i hzp plist) ≤ length plist + k
unfolding collect_guards
length-collect_guards zero i hzp plist = omega arith
length-collect_guards (suc k) i hzp plist =
    let rest =
      length-collect_guards k (suc i) hzp (if hzp i == 0 then plist else plist ++ (hzp i ∷ [])) in
    elim (Bool-cases (hzp i == 0)) [
      | inl e ↦ rw e (omega (arith, length-collect_guards k (suc i) hzp plist))
      | inr e ↦ rw e (
          omega (
            arith,
            length-collect_guards k (suc i) hzp (plist ++ (hzp i ∷ [])),
            length-append plist (hzp i ∷ []),
          ))
    ]

length-collect :
    (gc : GarbageCollector) (list plist : List ℕ)
    → length (collect gc list plist) ≤ length plist + length list * gc.hazard_count
unfolding collect
length-collect gc [] plist = omega arith
length-collect gc (a ∷ rest) plist = grind (
  arith,
  length-collect gc rest (collect_guards gc.hazard_count 0 (gc.at a).hzp.arr plist),
  length-collect_guards gc.hazard_count 0 (gc.at a).hzp.arr plist,
)

-- What a scan of distinct pointers has kept and deleted.
pub record Cleans (gc : GarbageCollector) (s t : Scanned) : Type 1 where
  pub from : List Retired  -- the items, in some order
  pub splits :
      Splits
        (record s { vector = clear_vector s.vector })
        t
        (filter (λ r. guarded gc r.ptr) from)
        (filter (λ r. not (guarded gc r.ptr)) from)
  pub distinct : Distinct key from
  pub same : length from ≡ s.vector.size
  pub perm : Perm from (items s.vector)
  pub all : (P : Retired → Type 0) → All P (items s.vector) → All P from

classic_scan-Cleans :
    (gc : GarbageCollector) (s : Scanned)
    → Distinct key (items s.vector)
    → Cleans gc s (classic_scan gc s)
classic_scan-Cleans gc s distinct = record {
  from = items s.vector;
  splits = classic_scan_lem gc s;
  distinct = distinct;
  same = length-cells s.vector.arr 0 s.vector.size;
  perm = Perm.refl (items s.vector);
  all = λ P h. h;
}

cells-IsEven :
    (n i : ℕ) (arr : Array Retired) → any_marked n i arr ≡ false → All IsEven (cells arr i n)
unfolding any_marked
cells-IsEven zero i arr h = tt
cells-IsEven (suc n) i arr h = (ground arith, cells-IsEven n (suc i) arr (ground arith))

inplace_scan-Cleans :
    (gc : GarbageCollector) (s : Scanned)
    → Distinct key (items s.vector)
    → Cleans gc s (inplace_scan gc s)
inplace_scan-Cleans gc s distinct = elim (Bool-cases (any_marked s.vector.size 0 s.vector.arr)) [
  | inl odd ↦
      subst (Cleans gc s) (sym (inplace_scan_odd gc s odd)) (classic_scan-Cleans gc s distinct)
  | inr even ↦ record {
    from = sort key (items s.vector);
    splits = inplace_scan_lem gc s (cells-IsEven s.vector.size 0 s.vector.arr even) distinct;
    distinct = sort-Distinct key (items s.vector) distinct;
    same = length-sort key (items s.vector) ∙ length-cells s.vector.arr 0 s.vector.size;
    perm = sort-Perm key (items s.vector);
    all = λ P h. All-sort P key (items s.vector) h;
  }
]

pub scan_vector-Cleans :
    (scan_type : ScanType) (gc : GarbageCollector) (s : Scanned)
    → Distinct key (items s.vector)
    → Cleans gc s (scan_vector scan_type gc s)
unfolding scan_vector
scan_vector-Cleans classic gc s distinct = classic_scan-Cleans gc s distinct
scan_vector-Cleans inplace gc s distinct = inplace_scan-Cleans gc s distinct

module _ {gc : GarbageCollector} {s t : Scanned} (c : Cleans gc s t) where
  pub Cleans-items : items t.vector ≡ filter (λ r. guarded gc r.ptr) c.from
  Cleans-items = c.splits.items

  pub Cleans-Distinct : Distinct key (items t.vector)
  Cleans-Distinct = rw Cleans-items (filter-Distinct (λ r. guarded gc r.ptr) c.from c.distinct)

  pub Cleans-size : t.vector.size ≤ length gc.list * gc.hazard_count
  Cleans-size = omega (
    arith,
    length-cells t.vector.arr 0 t.vector.size,
    ap length Cleans-items,
    length-Distinct (filter (λ r. guarded gc r.ptr) c.from) (collect gc gc.list [])
        (filter-Distinct (λ r. guarded gc r.ptr) c.from c.distinct)
        (subst (λ test. All (λ r. test r.ptr ≡ true) (filter (λ r. guarded gc r.ptr) c.from))
          (sym (collect-guarded gc)) (All-filter (λ r. guarded gc r.ptr) c.from)),
    length-collect gc gc.list [],
  )

  pub Cleans-count : length t.deleted + t.vector.size ≡ length s.deleted + s.vector.size
  Cleans-count = omega (
    arith,
    length-cells t.vector.arr 0 t.vector.size,
    ap length Cleans-items,
    ap length c.splits.deleted,
    length-append s.deleted (filter (λ r. not (guarded gc r.ptr)) c.from),
    length-filter_parts (λ r. guarded gc r.ptr) c.from,
    c.same,
  )

  -- What has been deleted, and with what is kept it makes up the items.
  pub Cleans-Perm :
      (dropped : List Retired) × (t.deleted ≡ s.deleted ++ dropped)
      × Perm (items t.vector ++ dropped) (items s.vector)
  Cleans-Perm = (
    filter (λ r. not (guarded gc r.ptr)) c.from,
    c.splits.deleted,
    rw Cleans-items (Perm.trans (filter_parts-Perm (λ r. guarded gc r.ptr) c.from) c.perm),
  )

-- However it scans, a scan of distinct retired pointers loses none of them and makes up none: what
-- the vector keeps and what is deleted besides what was deleted before are together a permutation of
-- the items of the vector. The vector keeps no more of them than the records of the list have guards.
pub scan_room :
    (scan_type : ScanType) (gc : GarbageCollector) (s : Scanned)
    → Distinct key (items s.vector)
    → let t = scan_vector scan_type gc s in
      (t.vector.size ≤ length gc.list * gc.hazard_count)
      × (length t.deleted + t.vector.size ≡ length s.deleted + s.vector.size)
      × (dropped : List Retired) × (t.deleted ≡ s.deleted ++ dropped)
      × Perm (items t.vector ++ dropped) (items s.vector)
scan_room scan_type gc s distinct =
    let c = scan_vector-Cleans scan_type gc s distinct in
    let (dropped, deleted, perm) = Cleans-Perm c in
    (Cleans-size c, Cleans-count c, dropped, deleted, perm)
