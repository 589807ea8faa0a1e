-- ===== src/Bag/Calls/Returning.antt =====
-- Every call of `tryRemoveAny` returns, and reports an empty bag only where there is no item.
use temp_data_structure_benc.Prelude.{
  ℕ, ◌+◌, ◌≤◌, ◌<◌, ◌≡◌, ◌≢◌, ◌∙◌, inl, inr, refl, sym, ap, Bool, List, [], Array, update,
  update_self, update_ne, arith,
}
use mathlib.Core.Path.{subst}
use native.Mathlib.Decide.{ℕ_discrete}
use temp_data_structure_benc.Bag.State.{Link, Tls, Bag, new, init_thread}
use temp_data_structure_benc.Bag.Blocks.Keeps.{Keeps}
use temp_data_structure_benc.Bag.Remove.{Outcome, try_remove_any}
use temp_data_structure_benc.Bag.Remove.Ready.{Clean, Holds, Ready, Leaves}
use temp_data_structure_benc.Bag.Remove.Scan.{Ends, below_or_from}
use temp_data_structure_benc.Bag.Remove.Own.{try_remove_any-Ends}
use temp_data_structure_benc.Bag.Remove.Effects.{Takes, IsInOrder, Effect}
use temp_data_structure_benc.Bag.Remove.Takes.{try_remove_any-Effect}
use temp_data_structure_benc.Bag.Blocks.Linked.{IsLinked, add-IsLinked}
use temp_data_structure_benc.Bag.Calls.Fresh.{ref_below}
use temp_data_structure_benc.Bag.Remove.Fuel.{IsUnfinished, try_remove_any-Grows}
use temp_data_structure_benc.Bag.Calls.{Reached}
use temp_data_structure_benc.Bag.Calls.Adding.{Left, add-Left}

-- All threads find the bag in order, and each block that is in no list holds no item.
pub record AllReady (size threads : ℕ) (b : Bag) (tls : Array Tls) : Type 0 where
  pub lists : Array (List ℕ)
  pub ready : (i : ℕ) → i < threads → Ready size threads b lists (tls i)
  pub ids : (i : ℕ) → (tls i).thread_id ≡ i
  pub held : (n : ℕ) → n ≢ 0 → n ≤ b.used → Holds size threads b lists n
  pub linked : IsLinked b

-- Each thread may call `tryRemoveAny`.
AllReady-IsInOrder :
    {size threads : ℕ} {b : Bag} {tls : Array Tls} (a : AllReady size threads b tls) (i : ℕ)
    → i < threads
    → IsInOrder size b (tls i)
AllReady-IsInOrder {b = b} {tls = tls} a i lt =
    let r = a.ready i lt in
    record {
      linked = a.linked;
      thread_block = omega (arith, r.mine.0, a.linked.heads (tls i).thread_id);
      thread_head = r.mine.1;
      steal_block = ref_below b a.lists (tls i).steal_index (tls i).steal_block r.valid r.place.1;
      steal_head = r.place.3;
    }

-- How a call of `tryRemoveAny` ends: with an item that is taken out of its slot, or with `false`,
-- where no allocated block holds an item and no slot has changed.
pub data Answer (size : ℕ) (b : Bag) : Outcome → Type 0 where
  item_of :
      {item : ℕ} {c : Bag} {t : Tls}
      → Takes size b item c
      → Answer size b (Outcome.removed item c t)
  none_left :
      {c : Bag} {t : Tls}
      → Keeps b c
      → ((n : ℕ) → n ≢ 0 → n ≤ b.used → Clean size b n)
      → Answer size b (Outcome.empty c t)

module _ (size threads : ℕ) where
  start-AllReady :
      (sentinel : ℕ) (next : Array Link) (items notify : Array (Array ℕ)) (garbage : Array Bool)
      → AllReady size threads
          (new sentinel next items notify)
          (λ i. init_thread size (new sentinel next items notify) i (garbage i))
  start-AllReady sentinel next items notify garbage = record {
    lists = λ _. [];
    ready = λ i lt. record {
      valid = record {
        walks = λ i. refl;
        simple = λ i. tt;
        apart = λ i j n ne h k. absurd (cc (h));
        below = λ i n h. absurd (cc (h));
      };
      mine = (refl, omega arith, λ nz. absurd (nz refl), inr refl);
      place = (omega (arith, lt), inl refl, inl refl, omega arith, λ h. absurd (cc (h)));
    };
    ids = λ i. refl;
    held = λ n nz le. absurd (omega (arith, nz, le));
    linked = record { heads = λ i. omega arith; links = λ n nz le. absurd (omega (arith, nz, le)) };
  }

  -- A call by the thread `i`.
  call-AllReady :
      {b c : Bag} {tls : Array Tls} {t' : Tls} (i : ℕ)
      → (a : AllReady size threads b tls) → Left size threads (tls i).thread_id b a.lists c t'
      → IsLinked c
      → AllReady size threads c (update tls i t')
  call-AllReady {b = b} {c = c} {tls = tls} {t' = t'} i a l linked = record {
    lists = l.lists;
    ready = λ j lt. elim (ℕ_discrete i j) [
      | yes e ↦
          subst (Ready size threads c l.lists)
            (sym (ap (update tls i t') (sym e) ∙ update_self tls i t')) l.ready
      | no ne ↦
          subst (Ready size threads c l.lists) (sym (update_ne tls t' ne))
            (other j ne (a.ready j lt))
    ];
    ids = λ j. elim (ℕ_discrete i j) [
      | yes e ↦
          ap (λ (t : Tls). t.thread_id) (ap (update tls i t') (sym e) ∙ update_self tls i t')
          ∙ l.same
          ∙ a.ids i
          ∙ e
      | no ne ↦ ap (λ (t : Tls). t.thread_id) (update_ne tls t' ne) ∙ a.ids j
    ];
    held = λ n nz le. elim (below_or_from b.used n) [
      | inl above ↦ l.grown n above le
      | inr within ↦ l.leaves.holds n (a.held n nz within)
    ];
    linked = linked;
  }
    where
      other :
          (j : ℕ)
          → i ≢ j
          → Ready size threads b a.lists (tls j)
          → Ready size threads c l.lists (tls j)
      other j ne r =
          let id : ℕ = (tls j).thread_id in
          let apart : id ≢ (tls i).thread_id = λ e. ne (sym (a.ids i) ∙ sym e ∙ a.ids j) in
          let same : c.heads id ≡ b.heads id = l.leaves.heads id apart in
          record {
            valid = l.ready.valid;
            mine = (
              r.mine.0 ∙ sym same,
              r.mine.1,
              l.leaves.free id (tls j).thread_head apart r.mine.2,
              elim r.mine.3 [ inl nz ↦ inl (λ z. nz (sym same ∙ z)) | inr top ↦ inr top ],
            );
            place =
                l.leaves.places (tls j).steal_index (tls j).steal_block (tls j).steal_prev
                  (tls j).steal_head r.place;
          }

  Leaves-Left :
      {tid : ℕ} {b : Bag} {ls : Array (List ℕ)} {c : Bag} {t : Tls} (ls' : Array (List ℕ))
      → Leaves size threads tid b ls c ls'
      → Ready size threads c ls' t
      → t.thread_id ≡ tid
      → c.used ≡ b.used
      → Left size threads tid b ls c t
  Leaves-Left ls' l r same used = record {
    lists = ls';
    leaves = l;
    ready = r;
    same = same;
    grown = λ n above within. absurd (omega (arith, used, above, within));
  }

  removed-Left :
      {tid item : ℕ} {b : Bag} {ls : Array (List ℕ)} {c : Bag} {t : Tls}
      → Ends size threads tid b ls (Outcome.removed item c t)
      → Effect size b (Outcome.removed item c t)
      → Left size threads tid b ls c t
  removed-Left (Ends.removed ls' l r same) (Effect.removed k _) = Leaves-Left ls' l r same k.used

  empty-Left :
      {tid : ℕ} {b : Bag} {ls : Array (List ℕ)} {c : Bag} {t : Tls}
      → Ends size threads tid b ls (Outcome.empty c t)
      → Effect size b (Outcome.empty c t)
      → Left size threads tid b ls c t
  empty-Left (Ends.empty ls' l r same none) (Effect.empty k _) = Leaves-Left ls' l r same k.used

  removed-IsLinked :
      {item : ℕ} {b : Bag} {c : Bag} {t : Tls}
      → Effect size b (Outcome.removed item c t)
      → IsLinked c
  removed-IsLinked (Effect.removed k o) = o.linked

  empty-IsLinked : {b : Bag} {c : Bag} {t : Tls} → Effect size b (Outcome.empty c t) → IsLinked c
  empty-IsLinked (Effect.empty k o) = o.linked

  module _ (pos : 0 < size) where
    module _ {b : Bag} {tls : Array Tls} (a : AllReady size threads b tls) (i : ℕ)
        (lt : i < threads) where
      effect : (fuel : ℕ) → Effect size b (try_remove_any size threads fuel b (tls i))
      effect fuel = try_remove_any-Effect size threads fuel b (tls i) (AllReady-IsInOrder a i lt)

      ends :
          (n : ℕ) × ((fuel : ℕ)
            → n ≤ fuel
            → Ends size threads
                (tls i).thread_id
                b
                a.lists
                (try_remove_any size threads fuel b (tls i)))
      ends = try_remove_any-Ends size threads pos b a.lists (tls i) (a.ready i lt)

      -- A call that has returned.
      returned :
          (fuel : ℕ) {o : Outcome}
          → try_remove_any size threads fuel b (tls i) ≡ o
          → (IsUnfinished o → ⊥)
          → Ends size threads (tls i).thread_id b a.lists o × Effect size b o
      returned fuel e finished =
          let more : ℕ = fuel + ends.0 in
          elim (try_remove_any-Grows size threads fuel more (omega arith) b (tls i)) [
            | inl u ↦ absurd (finished (subst IsUnfinished e u))
            | inr same ↦ (
              subst (Ends size threads (tls i).thread_id b a.lists) (sym same ∙ e)
                  (ends.1 more (omega arith)),
              subst (Effect size b) e (effect fuel),
            )
          ]

      Ends-Answer :
          {o : Outcome}
          → Ends size threads (tls i).thread_id b a.lists o
          → Effect size b o
          → Answer size b o
      Ends-Answer (Ends.removed ls' l r same) (Effect.removed k _) = Answer.item_of k
      Ends-Answer (Ends.empty {c = c} ls' l r same none) (Effect.empty k _) =
          Answer.none_left k (λ n nz le. unchanged c k n (elim (l.holds n (a.held n nz le)) [
            | inl (j, in_range, has) ↦ none j n in_range has
            | inr clean ↦ clean
          ]))
        where
          unchanged : (c : Bag) → Keeps b c → (n : ℕ) → Clean size c n → Clean size b n
          unchanged c k n clean slot in_block =
              sym (ap (λ (f : Array (Array ℕ)). f n slot) k.items)
              ∙ clean slot in_block
              ∙ k.sentinel

    Reached-AllReady :
        {b : Bag} {tls : Array Tls} → Reached size threads b tls → AllReady size threads b tls
    Reached-AllReady (Reached.start sentinel next items notify garbage) =
        start-AllReady sentinel next items notify garbage
    Reached-AllReady (Reached.added {b = b} {b' = c} {tls = tls} {t' = t'} i fuel item lt e h) =
        let a = Reached-AllReady h in
        let tid_lt : (tls i).thread_id < threads = omega (arith, a.ids i, lt) in
        call-AllReady i a
          (add-Left size threads fuel b a.lists (tls i) item c t' (a.ready i lt) tid_lt e)
          (add-IsLinked size fuel b (tls i) item c t' a.linked
            (AllReady-IsInOrder a i lt).thread_block e)
    Reached-AllReady (Reached.removed i fuel item lt e h) =
        let a = Reached-AllReady h in
        let (ends, effect) = returned a i lt fuel e (λ u. u) in
        call-AllReady i a (removed-Left ends effect) (removed-IsLinked effect)
    Reached-AllReady (Reached.found_none i fuel lt e h) =
        let a = Reached-AllReady h in
        let (ends, effect) = returned a i lt fuel e (λ u. u) in
        call-AllReady i a (empty-Left ends effect) (empty-IsLinked effect)

    Answer-finished : {b : Bag} {o : Outcome} → Answer size b o → IsUnfinished o → ⊥
    Answer-finished (Answer.item_of k) u = u
    Answer-finished (Answer.none_left k none) u = u

    -- In every state that calls of `add` and `tryRemoveAny` by the threads, one after the other, lead
    -- to from a new bag: a call of `tryRemoveAny` returns, in the same way with any fuel from some
    -- amount on, and does not follow NULL. It hands out an item that stood in a slot of an allocated
    -- block, which alone changes, to the sentinel; or it returns `false`, leaves every slot as it is,
    -- and no allocated block holds an item. Blocks must have a slot.
    pub Reached-Answer :
        {b : Bag} {tls : Array Tls}
        → Reached size threads b tls
        → (i : ℕ) → i < threads
        → (o : Outcome) × Answer size b o
          × (n : ℕ) × ((fuel : ℕ) → n ≤ fuel → try_remove_any size threads fuel b (tls i) ≡ o)
    Reached-Answer {b = b} {tls = tls} h i lt =
        let a = Reached-AllReady h in
        let (n, f) = ends a i lt in
        let o : Outcome = try_remove_any size threads n b (tls i) in
        let answer : Answer size b o = Ends-Answer a i lt (f n (omega arith)) (effect a i lt n) in
        (
          o,
          answer,
          n,
          λ fuel le. elim (try_remove_any-Grows size threads n fuel le b (tls i)) [
            | inl u ↦ absurd (Answer-finished answer u)
            | inr same ↦ sym same
          ],
        )
