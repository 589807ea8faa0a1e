-- ===== src/Bag/Calls/Fresh.antt =====
-- `add` puts a new block in front of the thread's list.
use temp_data_structure_benc.Prelude.{
  ℕ, ◌+◌, ◌≤◌, ◌<◌, ◌≡◌, ◌≢◌, ◌⊎◌, ◌∙◌, inl, inr, refl, sym, ap, true, false, List, [], ◌∷◌, Array,
  update, update_self, update_ne, All, arith, ◌==◌, if_elim,
}
use mathlib.Core.Path.{subst}
use native.Mathlib.Decide.{ℕ_discrete}
use temp_data_structure_benc.Prelude.Sort.{contains}
use temp_data_structure_benc.Bag.State.{Link, plain, Tls, Bag}
use temp_data_structure_benc.Bag.Remove.Lists.{Walks, Walks-same, Simple}
use temp_data_structure_benc.Bag.Remove.Ready.{Valid, IsRef, IsFree, Ready, Leaves, tail_after}

-- A block that a thread remembers is NULL or allocated.
pub ref_below :
    (b : Bag) (ls : Array (List ℕ)) (i p : ℕ) → Valid b ls → IsRef b (ls i) p → p ≤ b.used
ref_below b ls i p v (inl z) = omega (arith, z)
ref_below b ls i p v (inr (inl has)) = v.below i p has
ref_below b ls i p v (inr (inr (dead, le))) = le

apart-All :
    (ns : List ℕ) (used : ℕ)
    → ((n : ℕ) → contains ns n ≡ true → n ≤ used)
    → All (λ n. used + 1 ≢ n) ns
apart-All [] used h = tt
apart-All (n ∷ ns) used h =
    let le : n ≤ used = h n (ground arith) in
    (omega arith, apart-All ns used (λ m has. h m (ground (arith, has))))

module _ (size threads : ℕ) (b : Bag) (ls : Array (List ℕ)) (t : Tls)
    (r : Ready size threads b ls t) (block : ℕ) (at : block ≡ t.thread_block) where
  abbrev pub fresh : ℕ
  fresh = b.used + 1

  abbrev pub fresh_bag : Bag
  fresh_bag = record b {
    heads = update b.heads t.thread_id fresh;
    next = update (update b.next fresh (plain 0)) fresh (plain block);
    items = update b.items fresh (λ _. b.sentinel);
    notify = update b.notify fresh (λ _. 0);
    used = fresh;
  }

  abbrev pub more : Array (List ℕ)
  more = update ls t.thread_id (fresh ∷ ls t.thread_id)

  elsewhere : (k : ℕ) → k ≤ b.used → fresh_bag.next k ≡ b.next k
  elsewhere k le =
      update_ne (update b.next fresh (plain 0)) (plain block)
        (λ (e : fresh ≡ k). absurd (omega arith))
      ∙ update_ne b.next (plain 0) (λ (e : fresh ≡ k). absurd (omega arith))

  has_more :
      (i k : ℕ)
      → contains (more i) k ≡ true
      → (k ≡ fresh) × (t.thread_id ≡ i) ⊎ (contains (ls i) k ≡ true)
  has_more i k =
      if_elim
        (λ l. contains l k ≡ true → (k ≡ fresh) × (t.thread_id ≡ i) ⊎ (contains (ls i) k ≡ true))
        (t.thread_id == i)
        (λ e h.
          let same : t.thread_id ≡ i = ground (arith, e) in
          elim (ℕ_discrete fresh k) [
            | yes at_fresh ↦ inl (sym at_fresh, same)
            | no ne ↦ inr (subst (λ m. contains (ls m) k ≡ true) same (ground (arith, h, ne)))
          ])
        (λ _ h. inr h)

  fresh-Valid : Valid fresh_bag more
  fresh-Valid = record {
    walks = walks;
    simple = λ i.
        if_elim Simple (t.thread_id == i)
          (λ _. (
            apart-All (ls t.thread_id) b.used (r.valid.below t.thread_id),
            r.valid.simple t.thread_id,
          ))
          (λ _. r.valid.simple i);
    apart = apart;
    below = λ i k h. elim (has_more i k h) [
      | inl (e, _) ↦ omega (arith, e)
      | inr old ↦ omega (arith, r.valid.below i k old)
    ];
  }
    where
      next : Array Link
      next = fresh_bag.next

      at_fresh : next fresh ≡ plain block
      at_fresh = update_self (update b.next fresh (plain 0)) fresh (plain block)

      to : (next fresh).ptr ≡ block
      to = ap (λ (l : Link). l.ptr) at_fresh

      old_walk : (i : ℕ) → Walks next (b.heads i) (ls i)
      old_walk i =
          Walks-same b.next next (b.heads i) (ls i) (λ k has. elsewhere k (r.valid.below i k has))
            (r.valid.walks i)

      moved :
          (i h : ℕ) (ns : List ℕ)
          → update b.heads t.thread_id fresh i ≡ h
          → more i ≡ ns
          → Walks next h ns
          → Walks next (update b.heads t.thread_id fresh i) (more i)
      moved i h ns e f w =
          subst (λ k. Walks next k (more i)) (sym e) (subst (Walks next h) (sym f) w)

      walks : (i : ℕ) → Walks next (update b.heads t.thread_id fresh i) (more i)
      walks i = elim (ℕ_discrete t.thread_id i) [
        | yes e ↦
            moved i fresh (fresh ∷ ls t.thread_id)
              (ap (update b.heads t.thread_id fresh) (sym e)
                ∙ update_self b.heads t.thread_id fresh)
              (ap more (sym e) ∙ update_self ls t.thread_id (fresh ∷ ls t.thread_id))
              (
                refl,
                omega arith,
                at_fresh ∙ ap plain (sym to),
                subst (λ k. Walks next k (ls t.thread_id)) (sym r.mine.0 ∙ sym at ∙ sym to)
                    (old_walk t.thread_id),
              )
        | no ne ↦
            moved i (b.heads i) (ls i) (update_ne b.heads fresh ne)
              (update_ne ls (fresh ∷ ls t.thread_id) ne) (old_walk i)
      ]

      apart : (i j k : ℕ) → i ≢ j → contains (more i) k ≡ true → contains (more j) k ≡ true → ⊥
      apart i j k ne h l = elim (has_more i k h) [
        | inl (e, at_i) ↦ elim (has_more j k l) [
          | inl (_, at_j) ↦ ne (sym at_i ∙ at_j)
          | inr old ↦ absurd (omega (arith, e, r.valid.below j k old))
        ]
        | inr old_i ↦ elim (has_more j k l) [
          | inl (e, _) ↦ absurd (omega (arith, e, r.valid.below i k old_i))
          | inr old_j ↦ r.valid.apart i j k ne old_i old_j
        ]
      ]

  fresh_empty : (n k : ℕ) → b.items n k ≡ b.sentinel → fresh_bag.items n k ≡ b.sentinel
  fresh_empty n k e = if_elim (λ (f : Array ℕ). f k ≡ b.sentinel) (fresh == n) (λ _. refl) (λ _. e)

  listed : (i p : ℕ) → contains (ls i) p ≡ true → contains (more i) p ≡ true
  listed i p has =
      if_elim (λ l. contains l p ≡ true) (t.thread_id == i)
        (λ e.
          let old : contains (ls t.thread_id) p ≡ true =
            subst (λ l. contains l p ≡ true) (ap ls {x = i} {y = t.thread_id} (ground (arith, e)))
              has in
          ground (arith, old))
        (λ _. has)

  still_behind :
      (i m q : ℕ)
      → q ≤ b.used
      → contains (tail_after q (more i)) m ≡ true
      → contains (tail_after q (ls i)) m ≡ true
  still_behind i m q le =
      if_elim (λ l. contains (tail_after q l) m ≡ true → contains (tail_after q (ls i)) m ≡ true)
        (t.thread_id == i)
        (λ e h.
          let other : (fresh == q) ≡ false = ground (arith, le) in
          let same : t.thread_id ≡ i = ground (arith, e) in
          subst (λ k. contains (tail_after q (ls k)) m ≡ true) same (ground (arith, h, other)))
        (λ _ h. h)

  pub fresh-Leaves : Leaves size threads t.thread_id b ls fresh_bag more
  fresh-Leaves = record {
    places = λ i m q h x. (
      x.0,
      refs i m x.1,
      refs i q x.2,
      x.3,
      λ behind k lt.
          fresh_empty m k (x.4 (still_behind i m q (ref_below b ls i q r.valid x.2) behind) k lt),
    );
    heads = λ i ne. update_ne b.heads fresh (λ e. ne (sym e));
    free = λ i head ne.
        subst
          (λ h.
            IsFree size b i head
            → h ≢ 0
            → (slot : ℕ) → head ≤ slot
            → slot < size
            → fresh_bag.items h slot ≡ b.sentinel)
          (sym (update_ne b.heads fresh (λ e. ne (sym e))))
          (λ x nz k le lt. fresh_empty (b.heads i) k (x nz k le lt));
    holds = λ n x. elim x [
      | inl (i, lt, has) ↦ inl (i, lt, listed i n has)
      | inr clean ↦ inr (λ k lt. fresh_empty n k (clean k lt))
    ];
  }
    where
      refs : (i p : ℕ) → IsRef b (ls i) p → IsRef fresh_bag (more i) p
      refs i p (inl z) = inl z
      refs i p (inr (inl has)) = inr (inl (listed i p has))
      refs i p (inr (inr (dead, le))) = inr (inr (elsewhere p le ∙ dead, omega (arith, le)))

  pub fresh-Ready :
      Ready size threads fresh_bag more (record t { thread_block = fresh; thread_head = 0 })
  fresh-Ready = record {
    valid = fresh-Valid;
    mine = (
      sym is_head,
      omega arith,
      λ _ k le lt.
          subst (λ h. fresh_bag.items h k ≡ b.sentinel) (sym is_head)
            (ap (λ (f : Array ℕ). f k) (update_self b.items fresh (λ _. b.sentinel))),
      inl (λ z. absurd (omega (arith, sym is_head ∙ z))),
    );
    place = fresh-Leaves.places t.steal_index t.steal_block t.steal_prev t.steal_head r.place;
  }
    where
      is_head : update b.heads t.thread_id fresh t.thread_id ≡ fresh
      is_head = update_self b.heads t.thread_id fresh
