-- ===== src/Bag/Remove/Unlink.antt =====
-- How `tryRemoveAny` takes the thread's first block off its list.
use temp_data_structure_benc.Prelude.{
  ℕ, zero, suc, ◌≤◌, ◌<◌, ◌≡◌, ◌≢◌, ◌∙◌, inl, inr, refl, sym, ap, true, false, List, ◌∷◌, Array,
  update, update_self, update_ne, arith, ◌==◌, ◌||◌, if_elim, if◌then◌else◌,
}
use mathlib.Core.Path.{subst}
use native.Mathlib.Decide.{ℕ_discrete}
use temp_data_structure_benc.Prelude.Sort.{contains, contains-All}
use temp_data_structure_benc.Bag.State.{Link, plain, deleted_link, Tls, Bag, set_next}
use temp_data_structure_benc.Bag.Blocks.{mark1_block, notify_all}
use temp_data_structure_benc.Bag.Remove.{Found, unlink_own, mark_next, notify_next}
use temp_data_structure_benc.Bag.Remove.Lists.{Walks, Walks-same, Simple}
use temp_data_structure_benc.Bag.Remove.Ready.{Valid, IsRef, Leaves, Clean, IsFree, tail_after}
use temp_data_structure_benc.Bag.Remove.Cut.{tail-contains}

module _ (b : Bag) (t : Tls) (n m : ℕ) (ys : List ℕ) where
  abbrev pub marked_bag : Bag
  marked_bag = record b { next = update b.next n (record { ptr = m; mark1 = true; mark2 = false }) }

  abbrev pub unlinked_bag : Bag
  unlinked_bag = record b {
    heads = update b.heads t.thread_id m;
    next =
        update (update b.next n (record { ptr = m; mark1 = true; mark2 = false })) n deleted_link;
    notify = update b.notify m (λ _. 0);
  }

  marks : b.next n ≡ plain m → m ≢ 0 → mark1_block b n ≡ marked_bag
  unfolding mark1_block
  marks e nz = rw e (
      if_elim (λ x. x ≡ marked_bag) (m == 0 || false) (λ z. absurd (ground (arith, z))) (λ _. refl))

  at_front :
      (walk : ℕ)
      → n ≢ 0
      → m ≢ 0
      → b.heads t.thread_id ≡ n
      → unlink_own (suc walk) n marked_bag t ≡ unlink_own walk m unlinked_bag t
  unfolding unlink_own mark_next notify_next notify_all
  at_front walk nz m_nz head =
      rw (update_self b.next n (record { ptr = m; mark1 = true; mark2 = false })) (
        if_elim (λ o. o ≡ goal) (n == 0 || false) (λ z. absurd (ground (arith, z)))
          (λ _.
            if_elim (λ c. turn c ≡ goal) (m == 0) (λ z. absurd (ground (arith, z)))
              (λ _.
                if_elim (λ o. o ≡ goal) (b.heads t.thread_id == n) (λ _. refl)
                  (λ z. absurd (ground (arith, z))))))
    where
      goal : Found
      goal = unlink_own walk m unlinked_bag t

      turn : Bag → Found
      turn c =
          if c.heads t.thread_id == n
          then unlink_own walk m
              (set_next (record c { heads = update c.heads t.thread_id m }) n deleted_link) t
          else unlink_own walk (c.heads t.thread_id) c t

  stops :
      (walk q : ℕ)
      → m ≢ 0
      → unlinked_bag.next m ≡ plain q
      → unlink_own (suc walk) m unlinked_bag t ≡ Found.block_at m unlinked_bag t
  unfolding unlink_own mark_next
  stops walk q nz e = rw e (
      if_elim (λ o. o ≡ Found.block_at m unlinked_bag t) (m == 0 || false)
        (λ z. absurd (ground (arith, z))) (λ _. refl))

module _ (b : Bag) (t : Tls) (ls : Array (List ℕ)) (n m : ℕ) (ys : List ℕ) (v : Valid b ls)
    (own : ls t.thread_id ≡ n ∷ m ∷ ys) where
  abbrev pub rest_lists : Array (List ℕ)
  rest_lists = update ls t.thread_id (m ∷ ys)

  chain : Walks b.next (b.heads t.thread_id) (n ∷ m ∷ ys)
  chain = subst (Walks b.next (b.heads t.thread_id)) own (v.walks t.thread_id)

  distinct : Simple (n ∷ m ∷ ys)
  distinct = subst Simple own (v.simple t.thread_id)

  has_n : contains (ls t.thread_id) n ≡ true
  has_n = subst (λ l. contains l n ≡ true) (sym own) (ground arith)

  fewer : (i k : ℕ) → contains (rest_lists i) k ≡ true → contains (ls i) k ≡ true
  fewer i k =
      if_elim (λ l. contains l k ≡ true → contains (ls i) k ≡ true) (t.thread_id == i)
        (λ e h.
          subst (λ l. contains l k ≡ true)
            (sym own ∙ ap ls {x = t.thread_id} {y = i} (ground (arith, e))) (ground (arith, h)))
        (λ _ h. h)

  elsewhere : (k : ℕ) → n ≢ k → (unlinked_bag b t n m ys).next k ≡ b.next k
  elsewhere k ne =
      update_ne (update b.next n (record { ptr = m; mark1 = true; mark2 = false })) deleted_link ne
      ∙ update_ne b.next (record { ptr = m; mark1 = true; mark2 = false }) ne

  not_n : (k : ℕ) → contains (m ∷ ys) k ≡ true → n ≢ k
  not_n k has = contains-All (λ y. n ≢ y) (m ∷ ys) k distinct.0 has

  pub unlinked-Valid : Valid (unlinked_bag b t n m ys) rest_lists
  unlinked-Valid = record {
    walks = λ i. elim (ℕ_discrete t.thread_id i) [
      | yes e ↦ moved i m (m ∷ ys) (at_i i e b.heads m) (at_i i e ls (m ∷ ys)) (
          Walks-same b.next after m (m ∷ ys) (λ k has. elsewhere k (not_n k has))
            (subst (λ h. Walks b.next h (m ∷ ys)) chain.3.0 chain.3))
      | no ne ↦ moved i (b.heads i) (ls i) (update_ne b.heads m ne) (update_ne ls (m ∷ ys) ne) (
          Walks-same b.next after (b.heads i) (ls i)
            (λ k has. elsewhere k (λ e.
              v.apart t.thread_id i k ne (subst (λ l. contains (ls t.thread_id) l ≡ true) e has_n)
                has))
            (v.walks i))
    ];
    simple = λ i. if_elim Simple (t.thread_id == i) (λ _. distinct.1) (λ _. v.simple i);
    apart = λ i j k ne h l. v.apart i j k ne (fewer i k h) (fewer j k l);
    below = λ i k h. v.below i k (fewer i k h);
  }
    where
      after : Array Link
      after = (unlinked_bag b t n m ys).next

      at_i :
          {A : Type 0} (i : ℕ)
          → t.thread_id ≡ i
          → (f : Array A) (x : A) → update f t.thread_id x i ≡ x
      at_i i e f x = ap (update f t.thread_id x) (sym e) ∙ update_self f t.thread_id x

      moved :
          (i h : ℕ) (ns : List ℕ)
          → update b.heads t.thread_id m i ≡ h
          → rest_lists i ≡ ns
          → Walks after h ns
          → Walks after (update b.heads t.thread_id m i) (rest_lists i)
      moved i h ns e f w =
          subst (λ k. Walks after k (rest_lists i)) (sym e) (subst (Walks after h) (sym f) w)

  still : (i p : ℕ) → n ≢ p → contains (ls i) p ≡ true → contains (rest_lists i) p ≡ true
  still i p ne has =
      if_elim (λ l. contains l p ≡ true) (t.thread_id == i)
        (λ e.
          let in_own : contains (n ∷ m ∷ ys) p ≡ true =
            subst (λ l. contains l p ≡ true)
              (ap ls {x = i} {y = t.thread_id} (ground (arith, e)) ∙ own) has in
          ground (arith, in_own, ne))
        (λ _. has)

  unlinked-IsRef : (i p : ℕ) → IsRef b (ls i) p → IsRef (unlinked_bag b t n m ys) (rest_lists i) p
  unlinked-IsRef i p ref = elim (ℕ_discrete n p) [
    | yes e ↦ inr (
        inr (
          ap (unlinked_bag b t n m ys).next (sym e)
              ∙ update_self (update b.next n (record { ptr = m; mark1 = true; mark2 = false })) n
                  deleted_link,
          subst (λ k. k ≤ b.used) e (v.below t.thread_id n has_n),
        ))
    | no ne ↦ elim ref [
      | inl z ↦ inl z
      | inr (inl has) ↦ inr (inl (still i p ne has))
      | inr (inr (dead, le)) ↦ inr (inr (elsewhere p ne ∙ dead, le))
    ]
  ]

  still_behind :
      (i k q : ℕ)
      → contains (tail_after q (rest_lists i)) k ≡ true
      → contains (tail_after q (ls i)) k ≡ true
  still_behind i k q =
      if_elim (λ l. contains (tail_after q l) k ≡ true → contains (tail_after q (ls i)) k ≡ true)
        (t.thread_id == i)
        (λ e h.
          subst (λ l. contains (tail_after q l) k ≡ true)
            (sym own ∙ ap ls {x = t.thread_id} {y = i} (ground (arith, e)))
            (ground (arith, h, tail-contains q (m ∷ ys) k h)))
        (λ _ h. h)

  pub unlinked-Leaves :
      (size threads : ℕ)
      → Clean size b n
      → Leaves size threads t.thread_id b ls (unlinked_bag b t n m ys) rest_lists
  unlinked-Leaves size threads clean = record {
    places = λ i k q head x. (
      x.0,
      unlinked-IsRef i k x.1,
      unlinked-IsRef i q x.2,
      x.3,
      λ behind. x.4 (still_behind i k q behind),
    );
    heads = λ i ne. update_ne b.heads m (λ e. ne (sym e));
    free = λ i head ne.
        subst
          (λ h.
            IsFree size b i head
            → h ≢ 0
            → (slot : ℕ) → head ≤ slot
            → slot < size
            → b.items h slot ≡ b.sentinel)
          (sym (update_ne b.heads m (λ e. ne (sym e)))) (λ x. x);
    holds = λ k x. elim x [
      | inr none ↦ inr none
      | inl (i, lt, has) ↦ elim (ℕ_discrete n k) [
        | yes e ↦ inr (subst (Clean size b) e clean)
        | no ne ↦ inl (i, lt, still i k ne has)
      ]
    ];
  }

  pub unlink_own_lem :
      (walk : ℕ)
      → 2 ≤ walk
      → unlink_own walk n (mark1_block b n) t ≡ Found.block_at m (unlinked_bag b t n m ys) t
  unlink_own_lem zero le = absurd (omega arith)
  unlink_own_lem (suc zero) le = absurd (omega arith)
  unlink_own_lem (suc (suc walk)) le =
      let m_nz : m ≢ 0 = chain.3.1 in
      ap (λ c. unlink_own (suc (suc walk)) n c t)
        (marks b t n m ys (chain.2 ∙ ap plain chain.3.0) m_nz)
      ∙ at_front b t n m ys (suc walk) chain.1 m_nz chain.0
      ∙ stops b t n m ys walk (b.next m).ptr m_nz (elsewhere m (not_n m (ground arith)) ∙ chain.3.2)
