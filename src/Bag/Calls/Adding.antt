-- ===== src/Bag/Calls/Adding.antt =====
-- What `add` does to the lists of blocks and to what other threads remember.
use temp_data_structure_benc.Prelude.{
  ℕ, zero, suc, ◌+◌, ◌≤◌, ◌<◌, ◌≡◌, ◌≢◌, ◌∙◌, inl, inr, refl, sym, ap, true, Option, some, List, [],
  ◌∷◌, Array, update, update_self, update_ne, arith, ◌==◌, if_elim,
}
use mathlib.Core.Path.{subst}
use native.Mathlib.Decide.{ℕ_discrete}
use temp_data_structure_benc.Prelude.Sort.{contains, contains-All}
use temp_data_structure_benc.Bag.State.{Link, Tls, Bag, set_item}
use temp_data_structure_benc.Bag.Blocks.{new_block, add, add_loop, notify_all}
use temp_data_structure_benc.Bag.Remove.Lists.{Walks, Simple}
use temp_data_structure_benc.Bag.Remove.Cut.{tail-contains}
use temp_data_structure_benc.Bag.Remove.Ready.{Holds, Ready, Leaves, Leaves-trans, tail_after}
use temp_data_structure_benc.Bag.Calls.Fresh.{fresh_bag, more, fresh-Leaves, fresh-Ready}

-- What a call of a thread leaves.
pub record Left (size threads tid : ℕ) (b : Bag) (ls : Array (List ℕ)) (c : Bag) (t : Tls)
    : Type 0 where
  pub lists : Array (List ℕ)
  pub leaves : Leaves size threads tid b ls c lists
  pub ready : Ready size threads c lists t
  pub same : t.thread_id ≡ tid
  pub grown : (n : ℕ) → b.used < n → n ≤ c.used → Holds size threads c lists n

front :
    (next : Array Link) (h : ℕ) (ns : List ℕ)
    → Walks next h ns
    → h ≢ 0
    → (ys : List ℕ) × (ns ≡ h ∷ ys)
front next h [] w nz = absurd (nz w)
front next h (n ∷ ns) w nz = (ns, ap (λ k. k ∷ ns) (sym w.0))

module _ (size threads : ℕ) (b : Bag) (ls : Array (List ℕ)) (t : Tls) (block head item : ℕ)
    (r : Ready size threads b ls (record t { thread_head = head })) (at : block ≡ t.thread_block)
    (lt : head < size) (tid_lt : t.thread_id < threads) where
  abbrev put_bag : Bag
  put_bag = record b {
    items = set_item b.items block head item;
    notify = update b.notify block (λ _. 0);
  }

  is_head : b.heads t.thread_id ≡ block
  is_head = sym r.mine.0 ∙ sym at

  nz : block ≢ 0
  nz z = elim r.mine.3 [ inl h ↦ h (is_head ∙ z) | inr e ↦ absurd (omega (arith, lt, e)) ]

  own_list : (ys : List ℕ) × (ls t.thread_id ≡ block ∷ ys)
  own_list =
      front b.next block (ls t.thread_id)
        (subst (λ h. Walks b.next h (ls t.thread_id)) is_head (r.valid.walks t.thread_id)) nz

  has_block : contains (ls t.thread_id) block ≡ true
  has_block = subst (λ l. contains l block ≡ true) (sym own_list.1) (ground arith)

  -- No block behind another is the first of a list.
  behind_ne : (i m q : ℕ) → contains (tail_after q (ls i)) m ≡ true → block ≢ m
  behind_ne i m q h e = elim (ℕ_discrete t.thread_id i) [
    | yes same ↦
        let in_own : contains (tail_after q (block ∷ own_list.0)) m ≡ true =
          subst (λ l. contains (tail_after q l) m ≡ true) (ap ls (sym same) ∙ own_list.1) h in
        let in_rest : contains own_list.0 m ≡ true =
          ground (arith, in_own, tail-contains q own_list.0 m) in
        contains-All (λ y. block ≢ y) own_list.0 m
          (subst Simple own_list.1 (r.valid.simple t.thread_id)).0 in_rest e
    | no ne ↦
        r.valid.apart t.thread_id i m ne
          (subst (λ k. contains (ls t.thread_id) k ≡ true) e has_block) (tail-contains q (ls i) m h)
  ]

  elsewhere : (n k : ℕ) → block ≢ n → put_bag.items n k ≡ b.items n k
  elsewhere n k ne =
      ap (λ (f : Array ℕ). f k) (update_ne b.items (update (b.items block) head item) ne)

  other_first : (i : ℕ) → i ≢ t.thread_id → b.heads i ≢ 0 → block ≢ b.heads i
  other_first i ne some_block e =
      let (ys, f) = front b.next (b.heads i) (ls i) (r.valid.walks i) some_block in
      r.valid.apart t.thread_id i block (λ s. ne (sym s)) has_block
        (subst (λ l. contains l block ≡ true) (sym f) (ground (arith, e)))

  put-Leaves : Leaves size threads t.thread_id b ls put_bag ls
  put-Leaves = record {
    places = λ i m q h x. (
      x.0,
      x.1,
      x.2,
      x.3,
      λ behind k below. elsewhere m k (behind_ne i m q behind) ∙ x.4 behind k below,
    );
    heads = λ i ne. refl;
    free = λ i h ne x some_block k from to.
        elsewhere (b.heads i) k (other_first i ne some_block) ∙ x some_block k from to;
    holds = λ n x. elim x [
      | inl listed ↦ inl listed
      | inr clean ↦ elim (ℕ_discrete block n) [
        | yes e ↦
            inl (t.thread_id, tid_lt, subst (λ k. contains (ls t.thread_id) k ≡ true) e has_block)
        | no ne ↦ inr (λ k to. elsewhere n k ne ∙ clean k to)
      ]
    ];
  }

  put-Ready : Ready size threads put_bag ls (record t { thread_head = head + 1 })
  put-Ready = record {
    valid = record {
      walks = r.valid.walks;
      simple = r.valid.simple;
      apart = r.valid.apart;
      below = r.valid.below;
    };
    mine = (
      r.mine.0,
      omega (arith, lt),
      λ some_block k from to.
          subst (λ h. set_item b.items block head item h k ≡ b.sentinel) (sym is_head)
            (ap (λ (f : Array ℕ). f k)
                (update_self b.items block (update (b.items block) head item))
              ∙ update_ne (b.items block) item (λ (e : head ≡ k). absurd (omega (arith, from, e)))
              ∙ subst (λ h. b.items h k ≡ b.sentinel) is_head
                  (r.mine.2 some_block k (omega (arith, from)) to)),
      inl (λ z. nz (sym is_head ∙ z)),
    );
    place = put-Leaves.places t.steal_index t.steal_block t.steal_prev t.steal_head r.place;
  }

module _ (size threads : ℕ) where
  add_loop-Left :
      (fuel : ℕ) (b : Bag) (ls : Array (List ℕ)) (t : Tls) (item head block : ℕ) (c : Bag)
      (t' : Tls)
      → Ready size threads b ls (record t { thread_head = head })
      → block ≡ t.thread_block
      → t.thread_id < threads
      → add_loop size fuel b t item head block ≡ some (c, t')
      → Left size threads t.thread_id b ls c t'
  unfolding add_loop new_block notify_all
  add_loop-Left zero b ls t item head block c t' r at tid_lt e = absurd (cc (e))
  add_loop-Left (suc fuel) b ls t item head block c t' r at tid_lt e =
      let Goal : Option (Bag × Tls) → Type 0 =
        λ o. o ≡ some (c, t') → Left size threads t.thread_id b ls c t' in
      let u : Tls = record t { thread_head = head } in
      if_elim Goal (head == size)
        (λ _ f.
          let l =
            add_loop-Left fuel (fresh_bag size threads b ls u r block at)
              (more size threads b ls u r block at) (record t { thread_block = b.used + 1 }) item 0
              (b.used + 1) c t' (fresh-Ready size threads b ls u r block at) refl tid_lt f in
          record {
            lists = l.lists;
            leaves =
                Leaves-trans size threads (fresh-Leaves size threads b ls u r block at) l.leaves;
            ready = l.ready;
            same = l.same;
            grown = λ n above within. elim (ℕ_discrete (b.used + 1) n) [
              | yes new ↦ l.leaves.holds n (
                  inl (
                    t.thread_id,
                    tid_lt,
                    subst (λ ns. contains ns n ≡ true)
                        (sym (update_self ls t.thread_id ((b.used + 1) ∷ ls t.thread_id)))
                        (ground (arith, new)),
                  ))
              | no ne ↦ l.grown n (omega arith) within
            ];
          })
        (λ not_end.
          let lt : head < size = ground (arith, not_end, r.mine.1) in
          if_elim Goal (b.items block head == b.sentinel)
            (λ _ f.
              let same : (
                put_bag size threads b ls t block head item r at lt tid_lt,
                record t { thread_head = head + 1 },
              )
                  ≡ (c, t') =
                cc (f) in
              subst (λ (p : Bag × Tls). Left size threads t.thread_id b ls p.0 p.1) same
                (record {
                  lists = ls;
                  leaves = put-Leaves size threads b ls t block head item r at lt tid_lt;
                  ready = put-Ready size threads b ls t block head item r at lt tid_lt;
                  same = refl;
                  grown = λ n above within. absurd (omega (arith, above, within));
                }))
            (λ _ f.
              add_loop-Left fuel b ls t item (head + 1) block c t'
                (record {
                  valid = r.valid;
                  mine = (
                    r.mine.0,
                    omega (arith, lt),
                    λ nz k from to. r.mine.2 nz k (omega (arith, from)) to,
                    elim r.mine.3 [ inl h ↦ inl h | inr z ↦ absurd (omega (arith, z, lt)) ],
                  );
                  place = r.place;
                })
                at tid_lt f))
        e

  pub add-Left :
      (fuel : ℕ) (b : Bag) (ls : Array (List ℕ)) (t : Tls) (item : ℕ) (c : Bag) (t' : Tls)
      → Ready size threads b ls t
      → t.thread_id < threads
      → add size fuel b t item ≡ some (c, t')
      → Left size threads t.thread_id b ls c t'
  unfolding add
  add-Left fuel b ls t item c t' r tid_lt e =
      add_loop-Left fuel b ls t item t.thread_head t.thread_block c t' r refl tid_lt e
