-- ===== src/Bag/Remove/Cut.antt =====
-- A block is cut out of the middle of a list: what that leaves of the lists.
use temp_data_structure_benc.Prelude.{
  ℕ, ◌≤◌, ◌≡◌, ◌≢◌, ◌∙◌, inl, inr, refl, sym, ap, true, List, [], ◌∷◌, ◌++◌, append_assoc, Array,
  update, update_self, arith, ◌==◌, if_elim,
}
use mathlib.Core.Path.{subst}
use native.Mathlib.Decide.{ℕ_discrete}
use temp_data_structure_benc.Prelude.Sort.{contains}
use temp_data_structure_benc.Bag.State.{Link, plain, deleted_link, Bag}
use temp_data_structure_benc.Bag.Remove.Lists.{
  Walks, Walks-next, Walks-same, Walks-cut, Simple, Simple-drop, first, cut, cut_ne,
  contains-middle, contains-append, contains-left, contains-right,
}
use temp_data_structure_benc.Bag.Remove.Ready.{Valid, IsRef, Leaves, Clean, tail_after}
use temp_data_structure_benc.Bag.Remove.Seen.{Onto}

contains-shorter :
    (ws : List ℕ) (p block : ℕ) (ys : List ℕ) (n : ℕ)
    → contains (ws ++ (p ∷ ys)) n ≡ true
    → contains (ws ++ (p ∷ block ∷ ys)) n ≡ true
contains-shorter ws p block ys n h = elim (contains-append ws (p ∷ ys) n h) [
  | inl l ↦ contains-left ws (p ∷ block ∷ ys) n l
  | inr r ↦ contains-right ws (p ∷ block ∷ ys) n (ground (arith, r))
]

contains-longer :
    (ws : List ℕ) (p block : ℕ) (ys : List ℕ) (n : ℕ)
    → block ≢ n
    → contains (ws ++ (p ∷ block ∷ ys)) n ≡ true
    → contains (ws ++ (p ∷ ys)) n ≡ true
contains-longer ws p block ys n ne h = elim (contains-append ws (p ∷ block ∷ ys) n h) [
  | inl l ↦ contains-left ws (p ∷ ys) n l
  | inr r ↦ contains-right ws (p ∷ ys) n (ground (arith, r, ne))
]

pub tail-contains :
    (r : ℕ) (ys : List ℕ) (k : ℕ) → contains (tail_after r ys) k ≡ true → contains ys k ≡ true
tail-contains r [] k h = h
tail-contains r (y ∷ ys) k h = ground (arith, h, tail-contains r ys k)

tail-shorter :
    (r : ℕ) (ws : List ℕ) (p block : ℕ) (ys : List ℕ) (k : ℕ)
    → contains (tail_after r (ws ++ (p ∷ ys))) k ≡ true
    → contains (tail_after r (ws ++ (p ∷ block ∷ ys))) k ≡ true
tail-shorter r [] p block ys k h = ground (arith, h, tail-contains r ys k)
tail-shorter r (w ∷ ws) p block ys k h =
    ground (arith, h, tail-shorter r ws p block ys k, contains-shorter ws p block ys k)

module _ (b : Bag) (ls : Array (List ℕ)) (v : Valid b ls) (index : ℕ) (ws : List ℕ) (p block : ℕ)
    (ys : List ℕ) (here : ls index ≡ ws ++ (p ∷ block ∷ ys)) where
  abbrev shorter : Array (List ℕ)
  shorter = update ls index (ws ++ (p ∷ ys))

  abbrev cut_bag : Bag
  cut_bag = record b { next = cut b.next p block (first ys) }

  fewer : (i n : ℕ) → contains (shorter i) n ≡ true → contains (ls i) n ≡ true
  fewer i n =
      if_elim (λ l. contains l n ≡ true → contains (ls i) n ≡ true) (index == i)
        (λ e h.
          subst (λ l. contains l n ≡ true)
            (sym here ∙ ap ls {x = index} {y = i} (ground (arith, e)))
            (contains-shorter ws p block ys n h))
        (λ _ h. h)

  has_p : contains (ls index) p ≡ true
  has_p = subst (λ l. contains l p ≡ true) (sym here) (contains-middle ws p (block ∷ ys))

  has_block : contains (ls index) block ≡ true
  has_block =
      subst (λ l. contains l block ≡ true) (sym here)
        (contains-right ws (p ∷ block ∷ ys) block (ground arith))

  cut-Valid : Valid cut_bag shorter
  cut-Valid = record {
    walks = λ i.
        let after : Array Link = cut b.next p block (first ys) in
        if_elim (Walks after (b.heads i)) (index == i)
          (λ e.
            subst (λ k. Walks after (b.heads k) (ws ++ (p ∷ ys))) (ground (arith, e))
              (Walks-cut b.next (b.heads index) ws p block ys (subst Simple here (v.simple index))
                (subst (Walks b.next (b.heads index)) here (v.walks index))))
          (λ other.
            Walks-same b.next after (b.heads i) (ls i)
              (λ n has.
                cut_ne b.next p block (first ys) n
                  (λ e.
                    v.apart index i n (ground (arith, other))
                      (subst (λ m. contains (ls index) m ≡ true) e has_p) has)
                  (λ e.
                    v.apart index i n (ground (arith, other))
                      (subst (λ m. contains (ls index) m ≡ true) e has_block) has))
              (v.walks i));
    simple = λ i.
        if_elim Simple (index == i)
          (λ _. subst Simple (append_assoc ws (p ∷ []) ys) (
            Simple-drop (ws ++ (p ∷ [])) block ys
              (subst Simple (here ∙ sym (append_assoc ws (p ∷ []) (block ∷ ys))) (v.simple index))))
          (λ _. v.simple i);
    apart = λ i j n ne h k. v.apart i j n ne (fewer i n h) (fewer j n k);
    below = λ i n h. v.below i n (fewer i n h);
  }

  cut-Leaves :
      (size threads tid : ℕ) → Clean size b block → Leaves size threads tid b ls cut_bag shorter
  cut-Leaves size threads tid clean = record {
    places = λ i m q head x.
        (x.0, refs i m x.1, refs i q x.2, x.3, λ behind. x.4 (still_behind i m q behind));
    heads = λ i ne. refl;
    free = λ i h ne x. x;
    holds = λ n x. elim x [
      | inr none ↦ inr none
      | inl (i, lt, has) ↦ elim (ℕ_discrete block n) [
        | yes e ↦ inr (subst (Clean size b) e clean)
        | no ne ↦ inl (i, lt, kept i n ne has)
      ]
    ];
  }
    where
      link : b.next p ≡ plain block
      link =
          (Walks-next b.next (b.heads index) ws p (block ∷ ys)
            (subst (Walks b.next (b.heads index)) here (v.walks index))).1

      kept : (i r : ℕ) → block ≢ r → contains (ls i) r ≡ true → contains (shorter i) r ≡ true
      kept i r ne has =
          if_elim (λ l. contains l r ≡ true) (index == i)
            (λ e. contains-longer ws p block ys r ne (
              subst (λ l. contains l r ≡ true)
                (ap ls {x = i} {y = index} (ground (arith, e)) ∙ here) has))
            (λ _. has)

      still_behind :
          (i m q : ℕ)
          → contains (tail_after q (shorter i)) m ≡ true
          → contains (tail_after q (ls i)) m ≡ true
      still_behind i m q =
          if_elim
            (λ l. contains (tail_after q l) m ≡ true → contains (tail_after q (ls i)) m ≡ true)
            (index == i)
            (λ e h.
              subst (λ l. contains (tail_after q l) m ≡ true)
                (sym here ∙ ap ls {x = index} {y = i} (ground (arith, e)))
                (tail-shorter q ws p block ys m h))
            (λ _ h. h)

      refs : (i r : ℕ) → IsRef b (ls i) r → IsRef cut_bag (shorter i) r
      refs i r ref = elim (ℕ_discrete block r) [
        | yes e ↦ inr (
            inr (
              ap (cut b.next p block (first ys)) (sym e)
                  ∙ update_self (update b.next p (plain (first ys))) block deleted_link,
              subst (λ k. k ≤ b.used) e (v.below index block has_block),
            ))
        | no ne ↦ elim ref [
          | inl z ↦ inl z
          | inr (inl has) ↦ inr (inl (kept i r ne has))
          | inr (inr (dead, le)) ↦ inr (
              inr (
                cut_ne b.next p block (first ys) r
                      (λ e. absurd (cc (sym dead ∙ ap b.next (sym e) ∙ link))) ne
                    ∙ dead,
                le,
              ))
        ]
      ]

  pub cut-Onto :
      (size threads tid : ℕ) → Clean size b block → Onto size threads tid b ls cut_bag shorter
  cut-Onto size threads tid clean = record {
    valid = cut-Valid;
    clean = λ n h. h;
    marked = λ n h. h;
    sub = fewer;
    mine = λ t x. x;
    leaves = cut-Leaves size threads tid clean;
  }
