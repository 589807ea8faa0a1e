-- ===== src/Gc/Hazard/Scan/Help.antt =====
-- retirePtr and HelpScan: they never overrun the thread's vector, and delete no guarded pointer.
use temp_data_structure_benc.Prelude.{
  ℕ, zero, suc, ◌*◌, ◌<◌, ◌≡◌, ◌≢◌, refl, sym, ap, ◌∙◌, Bool, true, not, ◌||◌, List, [], ◌∷◌, ◌++◌,
  arith, if◌then◌else◌, if_elim, ◌==◌, Array, length, append_assoc, update, update_self, update_ne,
}
use mathlib.Core.Path.{subst}
use native.Mathlib.Decide.{ℕ_discrete}
use temp_data_structure_benc.Prelude.Sort.{cells, Distinct}
use temp_data_structure_benc.Gc.Hazard.{
  Retired, RetiredVector, push, is_full, clear_vector, HpRecord, GarbageCollector,
}
use temp_data_structure_benc.Gc.Hazard.Scan.{scan, push_retired, move_loop, take_over}
use temp_data_structure_benc.Gc.Hazard.Scan.Classic.{items, items-push}
use temp_data_structure_benc.Gc.Hazard.Scan.Marks.{key}
use temp_data_structure_benc.Gc.Hazard.Scan.Steps.{
  Safe, Safe-quiet, Safe-trans, HasRoom, Only, Only-trans, Steps, scan-Steps, put_vector-SameGuards,
  put_vector-Only, put_vector-retired,
}

Steps-trans :
    {this : ℕ} {rest : List Retired} {a b c : GarbageCollector}
    → Safe a b
    → Only this a b
    → Steps this rest b c
    → Steps this rest a c
Steps-trans p q s = record { safe = Safe-trans p s.safe; only = Only-trans q s.only; room = s.room }

-- A push, and the scan that follows where the vector is full.
abbrev push_and_scan : GarbageCollector → ℕ → Retired → GarbageCollector
push_and_scan gc this r =
    let pushed = push_retired gc this r in
    if is_full (pushed.at this).retired then scan pushed this else pushed

module _ (gc : GarbageCollector) (this : ℕ) (r : Retired) (more : List Retired) where
  pub push_retired-items :
      HasRoom gc this (r ∷ more)
      → ((items ((push_retired gc this r).at this).retired ++ more)
          ≡ (items (gc.at this).retired ++ (r ∷ more)))
        × Safe gc (push_retired gc this r)
        × Only this gc (push_retired gc this r)
  push_retired-items room = (
    ap (λ (v : RetiredVector). items v ++ more)
          (put_vector-retired gc this (push (gc.at this).retired r))
        ∙ ap (λ l. l ++ more) (items-push (gc.at this).retired r)
        ∙ append_assoc (items (gc.at this).retired) (r ∷ []) more,
    Safe-quiet (put_vector-SameGuards gc this (push (gc.at this).retired r) gc.deleted) refl,
    put_vector-Only gc this (push (gc.at this).retired r) gc.deleted,
  )

  pub push_and_scan-Steps :
      HasRoom gc this (r ∷ more) → Steps this more gc (push_and_scan gc this r)
  push_and_scan-Steps room =
      let (same_items, safe, only) = push_retired-items room in
      let pushed = push_retired gc this r in
      let at_this = put_vector-retired gc this (push (gc.at this).retired r) in
      let distinct : Distinct key (items (pushed.at this).retired ++ more) =
        rw same_items room.distinct in
      let enough : length gc.list * gc.hazard_count < (pushed.at this).retired.capacity =
        rw at_this room.enough in
      if_elim (Steps this more gc) (is_full (pushed.at this).retired)
        (λ full. Steps-trans safe only (scan-Steps pushed this more distinct enough))
        (λ room_left. record {
          safe = safe;
          only = only;
          room = record { distinct = distinct; room = ground (arith, room_left); enough = enough };
        })

-- The loop that moves pointers from the record `src` to `this`.
move_loop-Steps :
    (n i src this : ℕ) (gc : GarbageCollector) (more : List Retired)
    → this ≢ src
    → HasRoom gc this (cells (gc.at src).retired.arr i n ++ more)
    → Steps this more gc (move_loop n i src this gc)
unfolding move_loop
move_loop-Steps zero i src this gc more ne room = record {
  safe =
      Safe-quiet (record { list = refl; hazard_count = refl; scan_type = refl; hzp = λ a. refl })
        refl;
  only = record { others = λ b d. refl; owner = refl; free = refl };
  room = room;
}
move_loop-Steps (suc n) i src this gc more ne room =
    let r = (gc.at src).retired.arr i in
    let gc' = push_and_scan gc this r in
    let first =
      push_and_scan-Steps gc this r (cells (gc.at src).retired.arr (suc i) n ++ more) room in
    let arr_same : (gc'.at src).retired.arr ≡ (gc.at src).retired.arr =
      ap (λ (h : HpRecord). h.retired.arr) (first.only.others src ne) in
    Steps-trans first.safe first.only (
      move_loop-Steps n (suc i) src this gc' more ne (
        subst (λ (arr : Array Retired). HasRoom gc' this (cells arr (suc i) n ++ more))
          (sym arr_same) first.room))

-- The retired pointers of a record that its thread has given up, or that a dead thread has left.
abbrev pub orphans_of : (ℕ → Bool) → HpRecord → List Retired
orphans_of alive r =
    if r.free then [] else if r.owner == 0 || not (alive r.owner) then items r.retired else []

abbrev pub orphans : (ℕ → Bool) → GarbageCollector → List ℕ → List Retired
orphans alive gc [] = []
orphans alive gc (a ∷ rest) = orphans_of alive (gc.at a) ++ orphans alive gc rest

-- A step on the records `this` and `a`.
pub record HelpSteps (this a : ℕ) (more : List Retired) (gc gc' : GarbageCollector) : Type 0 where
  pub safe : Safe gc gc'
  pub others : (b : ℕ) → this ≢ b → a ≢ b → gc'.at b ≡ gc.at b
  pub owner : (gc'.at this).owner ≡ (gc.at this).owner
  pub room : HasRoom gc' this more

pub HelpSteps-refl :
    {this a : ℕ} {more : List Retired} {gc : GarbageCollector}
    → HasRoom gc this more
    → HelpSteps this a more gc gc
HelpSteps-refl {gc = gc} room = record {
  safe =
      Safe-quiet (record { list = refl; hazard_count = refl; scan_type = refl; hzp = λ a. refl })
        refl;
  others = λ b n m. refl;
  owner = refl;
  room = room;
}

-- A change of a record that leaves its guards alone.
update-Safe :
    (gc : GarbageCollector) (a : ℕ) (r : HpRecord)
    → r.hzp ≡ (gc.at a).hzp
    → Safe gc (record gc { at = update gc.at a r })
update-Safe gc a r e =
    Safe-quiet
      (record {
        list = refl;
        hazard_count = refl;
        scan_type = refl;
        hzp = λ b. elim (ℕ_discrete a b) [
          | yes same ↦
              subst (λ c. (update gc.at a r c).hzp ≡ (gc.at c).hzp) same
                (ap (λ (h : HpRecord). h.hzp) (update_self gc.at a r) ∙ e)
          | no ne ↦ ap (λ (h : HpRecord). h.hzp) (update_ne gc.at r ne)
        ];
      })
      refl

HasRoom-at :
    {gc gc' : GarbageCollector} {this : ℕ} {more : List Retired}
    → (gc'.at this).retired ≡ (gc.at this).retired
    → gc'.list ≡ gc.list
    → gc'.hazard_count ≡ gc.hazard_count
    → HasRoom gc this more
    → HasRoom gc' this more
HasRoom-at {gc} {gc'} {this} {more} e l h room = record {
  distinct = subst (λ (v : RetiredVector). Distinct key (items v ++ more)) (sym e) room.distinct;
  room = subst (λ (v : RetiredVector). v.size < v.capacity) (sym e) room.room;
  enough =
      subst (λ (v : RetiredVector). length gc'.list * gc'.hazard_count < v.capacity) (sym e)
        (subst (λ k. length gc'.list * k < (gc.at this).retired.capacity) (sym h)
          (subst (λ k. length k * gc.hazard_count < (gc.at this).retired.capacity) (sym l)
            room.enough));
}

pub take_over-HelpSteps :
    (tid this a : ℕ) (gc : GarbageCollector) (more : List Retired)
    → this ≢ a
    → HasRoom gc this (items (gc.at a).retired ++ more)
    → HelpSteps this a more gc (take_over tid this gc a)
unfolding take_over
take_over-HelpSteps tid this a gc more ne room =
    let mine = record (gc.at a) { owner = tid } in
    let owned = record gc { at = update gc.at a mine } in
    let n = (gc.at a).retired.size in
    let at_a : owned.at a ≡ mine = update_self gc.at a mine in
    let at_this : owned.at this ≡ gc.at this = update_ne gc.at mine (λ e. ne (sym e)) in
    let moved = move_loop n 0 a this owned in
    let steps = move_loop-Steps n 0 a this owned more ne (
      HasRoom-at (ap (λ (h : HpRecord). h.retired) at_this) refl refl (
        subst (λ (h : HpRecord). HasRoom gc this (cells h.retired.arr 0 n ++ more)) (sym at_a)
          room)) in
    let given = record (moved.at a) {
      retired = clear_vector (moved.at a).retired;
      owner = 0;
      free = true;
    } in
    let this_kept : update moved.at a given this ≡ moved.at this =
      update_ne moved.at given (λ e. ne (sym e)) in
    record {
      safe =
          Safe-trans (update-Safe gc a mine refl)
            (Safe-trans steps.safe (update-Safe moved a given refl));
      others =
          λ b nb na. update_ne moved.at given na ∙ steps.only.others b nb ∙ update_ne gc.at mine na;
      owner =
          ap (λ (h : HpRecord). h.owner) this_kept
          ∙ steps.only.owner
          ∙ ap (λ (h : HpRecord). h.owner) at_this;
      room = HasRoom-at (ap (λ (h : HpRecord). h.retired) this_kept) refl refl steps.room;
    }
