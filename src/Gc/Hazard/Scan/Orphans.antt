-- ===== src/Gc/Hazard/Scan/Orphans.antt =====
-- HelpScan takes the retired pointers of all abandoned records; retirePtr as a whole.
use temp_data_structure_benc.Prelude.{
  ℕ, ◌≡◌, ◌≢◌, refl, sym, ap, ap₂, ◌∙◌, Bool, true, false, not, ◌||◌, List, [], ◌∷◌, ◌++◌, arith,
  if◌then◌else◌, ◌==◌, All, All-imp, append-nil, update, update_self, Bool-cases, inl, inr,
}
use mathlib.Core.Path.{subst}
use native.Mathlib.Decide.{ℕ_discrete}
use temp_data_structure_benc.Prelude.Sort.{Distinct, Distinct-split}
use temp_data_structure_benc.Gc.Hazard.Scan.Marks.{key}
use temp_data_structure_benc.Gc.Hazard.{Retired, is_full, clear_vector, HpRecord, GarbageCollector}
use temp_data_structure_benc.Gc.Hazard.Scan.{
  scan, push_retired, move_loop, take_over, help_record, help_loop, help_scan, retire_ptr,
}
use temp_data_structure_benc.Gc.Hazard.Scan.Classic.{items}
use temp_data_structure_benc.Gc.Hazard.Scan.Steps.{Safe, Safe-trans, HasRoom, Steps}
use temp_data_structure_benc.Gc.Hazard.Scan.Help.{
  orphans_of, orphans, HelpSteps, HelpSteps-refl, take_over-HelpSteps, push_retired-items,
  push_and_scan-Steps,
}

All-every : {P : ℕ → Type 0} (xs : List ℕ) → ((x : ℕ) → P x) → All P xs
All-every [] f = tt
All-every (x ∷ xs) f = (f x, All-every xs f)

HasRoom-prefix :
    {gc : GarbageCollector} {this : ℕ} {more : List Retired}
    → HasRoom gc this more
    → HasRoom gc this []
HasRoom-prefix {gc} {this} {more} h = record {
  distinct =
      rw (append-nil (items (gc.at this).retired))
        (Distinct-split key (items (gc.at this).retired) more h.distinct).0;
  room = h.room;
  enough = h.enough;
}

module _ (alive : ℕ → Bool) (tid this : ℕ) (tid_nz : tid ≢ 0) (tid_alive : alive tid ≡ true) where
  own_orphans : (r : HpRecord) → r.owner ≡ tid → orphans_of alive r ≡ []
  own_orphans r own = ground (arith, ap alive own)

  -- A record that is not abandoned is left alone, the thread's own among them.
  help_record_left :
      (gc : GarbageCollector) (a : ℕ)
      → ((gc.at a).free || not ((gc.at a).owner == 0 || not (alive (gc.at a).owner))) ≡ true
      → (help_record alive tid this gc a ≡ gc) × (orphans_of alive (gc.at a) ≡ [])
  unfolding help_record
  help_record_left gc a h = (ground (arith, h), ground (arith, h))

  help_record_taken :
      (gc : GarbageCollector) (a : ℕ)
      → ((gc.at a).free || not ((gc.at a).owner == 0 || not (alive (gc.at a).owner))) ≡ false
      → (help_record alive tid this gc a ≡ take_over tid this gc a)
        × (orphans_of alive (gc.at a) ≡ items (gc.at a).retired)
  unfolding help_record
  help_record_taken gc a h = (ground (arith, h), ground (arith, h))

  take_over_orphans :
      (gc : GarbageCollector) (a : ℕ) → orphans_of alive ((take_over tid this gc a).at a) ≡ []
  unfolding take_over
  take_over_orphans gc a =
      let owned = record gc { at = update gc.at a (record (gc.at a) { owner = tid }) } in
      let moved = move_loop (gc.at a).retired.size 0 a this owned in
      ap (orphans_of alive) (
        update_self moved.at a (record (moved.at a) {
          retired = clear_vector (moved.at a).retired;
          owner = 0;
          free = true;
        }))

  help_record-HelpSteps :
      (gc : GarbageCollector) (a : ℕ) (more : List Retired)
      → (gc.at this).owner ≡ tid
      → HasRoom gc this (orphans_of alive (gc.at a) ++ more)
      → HelpSteps this a more gc (help_record alive tid this gc a)
        × (orphans_of alive ((help_record alive tid this gc a).at a) ≡ [])
  help_record-HelpSteps gc a more own room =
      elim (Bool-cases
        ((gc.at a).free || not ((gc.at a).owner == 0 || not (alive (gc.at a).owner)))) [
          | inl left ↦
              let (same, none) = help_record_left gc a left in
              rw same (HelpSteps-refl (subst (λ l. HasRoom gc this (l ++ more)) none room), none)
          | inr abandoned ↦
              let (same, all) = help_record_taken gc a abandoned in
              rw same (
                take_over-HelpSteps tid this a gc more
                    (λ e.
                      let own' : (gc.at a).owner ≡ tid = ap (λ b. (gc.at b).owner) (sym e) ∙ own in
                      ground (arith, abandoned, ap alive own'))
                    (subst (λ l. HasRoom gc this (l ++ more)) all room),
                take_over_orphans gc a,
              )
        ]

  -- Records that a step leaves alone have the same orphans, and so has the thread's own, with none.
  orphans-same :
      (gc gc' : GarbageCollector) (list : List ℕ)
      → (gc.at this).owner ≡ tid
      → (gc'.at this).owner ≡ tid
      → All (λ b. this ≢ b → gc'.at b ≡ gc.at b) list
      → orphans alive gc' list ≡ orphans alive gc list
  orphans-same gc gc' [] own own' h = refl
  orphans-same gc gc' (b ∷ rest) own own' h =
      ap₂ ◌++◌
        (elim (ℕ_discrete this b) [
          | yes e ↦
              subst (λ c. orphans_of alive (gc'.at c) ≡ orphans_of alive (gc.at c)) e
                (own_orphans (gc'.at this) own' ∙ sym (own_orphans (gc.at this) own))
          | no ne ↦ ap (orphans_of alive) (h.0 ne)
        ])
        (orphans-same gc gc' rest own own' h.1)

  -- Steps on the record `this` and on those of the list, which leave no orphan there.
  record LoopSteps (list : List ℕ) (gc gc' : GarbageCollector) : Type 0 where
    pub safe : Safe gc gc'
    pub others : (b : ℕ) → this ≢ b → All (λ a. a ≢ b) list → gc'.at b ≡ gc.at b
    pub owner : (gc'.at this).owner ≡ tid
    pub room : HasRoom gc' this []
    pub done : orphans alive gc' list ≡ []

  help_loop-LoopSteps :
      (list : List ℕ) (gc : GarbageCollector)
      → (gc.at this).owner ≡ tid
      → Distinct (λ a. a) list
      → HasRoom gc this (orphans alive gc list)
      → LoopSteps list gc (help_loop alive tid this list gc)
  unfolding help_loop
  help_loop-LoopSteps [] gc own d room =
      let quiet = HelpSteps-refl {a = this} room in
      record { safe = quiet.safe; others = λ b ne h. refl; owner = own; room = room; done = refl }
  help_loop-LoopSteps (a ∷ rest) gc own d room =
      let (step, done_here) = help_record-HelpSteps gc a (orphans alive gc rest) own room in
      let gc' = help_record alive tid this gc a in
      let own' : (gc'.at this).owner ≡ tid = step.owner ∙ own in
      let later = help_loop-LoopSteps rest gc' own' d.1 (
        subst (HasRoom gc' this)
          (sym (
            orphans-same gc gc' rest own own'
              (All-imp rest (λ b (ne : a ≢ b). λ own_ne. step.others b own_ne ne) d.0)))
          step.room) in
      let end = help_loop alive tid this rest gc' in
      record {
        safe = Safe-trans step.safe later.safe;
        others = λ b ne h. later.others b ne h.1 ∙ step.others b ne h.0;
        owner = later.owner;
        room = later.room;
        done =
            ap₂ ◌++◌
              (elim (ℕ_discrete this a) [
                | yes e ↦
                    subst (λ c. orphans_of alive (end.at c) ≡ []) e
                      (own_orphans (end.at this) later.owner)
                | no ne ↦
                    ap (orphans_of alive) (
                      later.others a ne
                        (All-imp rest (λ b (x : a ≢ b). λ (z : b ≡ a). x (sym z)) d.0))
                    ∙ done_here
              ])
              later.done;
      }

  -- HelpScan by a living thread deletes no pointer that a record guards, leaves room in the thread's
  -- vector, and leaves no retired pointer in an abandoned record, if no pointer has been retired
  -- twice and the vector has room for one pointer more than there are guards.
  pub help_scan_lem :
      (gc : GarbageCollector)
      → (gc.at this).owner ≡ tid
      → Distinct (λ a. a) gc.list
      → HasRoom gc this (orphans alive gc gc.list)
      → Safe gc (help_scan alive tid this gc)
        × HasRoom (help_scan alive tid this gc) this []
        × (orphans alive (help_scan alive tid this gc) gc.list ≡ [])
  unfolding help_scan
  help_scan_lem gc own d room =
      let s = help_loop-LoopSteps gc.list gc own d room in (s.safe, s.room, s.done)

  -- retirePtr deletes no pointer that a record guards, and leaves room for the next, if no pointer is
  -- retired twice and the vector has room for one pointer more than there are guards.
  pub retire_ptr_lem :
      (gc : GarbageCollector) (r : Retired)
      → (gc.at this).owner ≡ tid
      → Distinct (λ a. a) gc.list
      → HasRoom gc this (r ∷ orphans alive gc gc.list)
      → Safe gc (retire_ptr alive tid this r gc) × HasRoom (retire_ptr alive tid this r gc) this []
  unfolding retire_ptr
  retire_ptr_lem gc r own d room =
      let pushed = push_retired gc this r in
      let (same_items, safe, only) = push_retired-items gc this r (orphans alive gc gc.list) room in
      let steps = push_and_scan-Steps gc this r (orphans alive gc gc.list) room in
      elim (Bool-cases (is_full (pushed.at this).retired)) [
        | inl full ↦
            let scanned : Steps this (orphans alive gc gc.list) gc (scan pushed this) =
              subst (Steps this (orphans alive gc gc.list) gc)
                (ap (λ b. if b then scan pushed this else pushed) full) steps in
            let own' : ((scan pushed this).at this).owner ≡ tid = scanned.only.owner ∙ own in
            let (s, h, done) =
              help_scan_lem (scan pushed this) own'
                (subst (Distinct (λ a. a)) (sym scanned.safe.same.list) d)
                (subst (HasRoom (scan pushed this) this)
                  (sym (
                    ap (orphans alive (scan pushed this)) scanned.safe.same.list
                    ∙ orphans-same gc (scan pushed this) gc.list own own'
                        (All-every gc.list scanned.only.others)))
                  scanned.room) in
            rw full (Safe-trans scanned.safe s, h)
        | inr room_left ↦ rw room_left (
          safe,
          HasRoom-prefix (
              subst (λ (g : GarbageCollector). HasRoom g this (orphans alive gc gc.list))
                (ap (λ b. if b then scan pushed this else pushed) room_left) steps.room),
        )
      ]
