-- ===== src/Queue/TwoLock/Reclaim.antt =====
-- `clear` of `RWQueue`, its destructor, and its iterators.
use temp_data_structure_benc.Prelude.{
  ℕ, zero, suc, ◌+◌, ◌≤◌, ◌<◌, ◌≡◌, ◌≢◌, refl, sym, ap, ◌∙◌, true, false, some, List, [], ◌∷◌, ◌++◌,
  map, length, length-map, arith,
}
use temp_data_structure_benc.Queue.TwoLock.{
  RwQueue, empty, size, clear, clear_loop, begin_node, end_node, iterate, free_node,
}
use temp_data_structure_benc.Queue.TwoLock.Chain.{Chain, last, Distinct, All-last, Chain-last}
use temp_data_structure_benc.Queue.TwoLock.Calls.{IsValid, IsList, IsList-rest, contents}

-- What `clear` leaves: one node, at which `m_pHead` and `m_pTail` both point, the only one that is
-- allocated, and the item counter as it was.
pub record IsCleared {A : Type 0} (before after : RwQueue A) : Type 0 where
  pub no_next : after.next after.head ≡ 0
  pub same_ends : after.head ≡ after.tail
  pub head_live : after.live after.head ≡ true
  pub others_free : (n : ℕ) → n ≢ after.head → after.live n ≡ false
  pub counter : after.item_counter ≡ before.item_counter

module _ {A : Type 0} where
  clear_loop_end :
      (fuel removed : ℕ) (q : RwQueue A)
      → q.next q.head ≡ 0
      → clear_loop (suc fuel) removed q ≡ some (removed, q)
  unfolding clear_loop
  clear_loop_end fuel removed q e = ground arith

  clear_loop_next :
      (fuel removed : ℕ) (q : RwQueue A) (n : ℕ)
      → q.next q.head ≡ n
      → n ≢ 0
      → clear_loop (suc fuel) removed q
        ≡ clear_loop fuel (removed + 1) (record (free_node q q.head) { head = n })
  unfolding clear_loop
  clear_loop_next fuel removed q n e nz = ground arith

  clear_loop_lem :
      (fuel removed : ℕ) {q : RwQueue A} (ns : List ℕ)
      → IsList q.next q.live q.head q.tail ns
      → length ns < fuel
      → (q' : RwQueue A) × (clear_loop fuel removed q ≡ some (removed + length ns, q'))
        × IsCleared q q'
  clear_loop_lem zero removed ns v h = absurd (omega arith)
  clear_loop_lem (suc fuel) removed {q} [] v h =
      let count : removed ≡ removed + 0 = omega arith in
      (
        q,
        clear_loop_end fuel removed q v.chain ∙ ap (λ k. some (k, q)) count,
        record {
          no_next = v.chain;
          same_ends = sym v.at_tail;
          head_live = v.head_live;
          others_free = λ n ne. v.others_free n ne tt;
          counter = refl;
        },
      )
  clear_loop_lem (suc fuel) removed {q} (n ∷ ns) v h =
      let (q', e, c) =
        clear_loop_lem fuel (removed + 1) {q = record (free_node q q.head) { head = n }} ns
          (IsList-rest v) (omega arith) in
      let count : removed + 1 + length ns ≡ removed + suc (length ns) = omega arith in
      (
        q',
        clear_loop_next fuel removed q n v.chain.0 v.chain.1 ∙ e ∙ ap (λ k. some (k, q')) count,
        record {
          no_next = c.no_next;
          same_ends = c.same_ends;
          head_live = c.head_live;
          others_free = c.others_free;
          counter = c.counter;
        },
      )

  -- `clear` returns the number of items and frees every node but one, which is head and tail: the
  -- destructor, which asserts that and frees it, leaves no node allocated. The item counter stays as
  -- it was, so `size` still returns the old number.
  pub clear_lem :
      (fuel : ℕ) {q : RwQueue A} (ns : List ℕ)
      → IsValid q ns
      → length ns < fuel
      → (q' : RwQueue A) × (clear fuel q ≡ some (length (contents q ns), q'))
        × IsCleared q q'
        × (size q' ≡ size q)
  unfolding clear size
  clear_lem fuel {q} ns v h =
      let count : 0 + length ns ≡ length (map q.value ns) = omega (arith, length-map q.value ns) in
      let (q', e, c) = clear_loop_lem fuel 0 ns v.list h in
      (q', e ∙ ap (λ k. some (k, q')) count, c, c.counter)

  iterate-Chain :
      (fuel : ℕ) (q : RwQueue A) (n : ℕ) (ns : List ℕ)
      → Chain q.next n ns
      → Distinct n ns
      → length ns < fuel
      → iterate fuel q n (last n ns) ++ (q.value (last n ns) ∷ []) ≡ q.value n ∷ map q.value ns
  unfolding iterate
  iterate-Chain zero q n ns c d h = absurd (omega arith)
  iterate-Chain (suc fuel) q n [] c d h = ground arith
  iterate-Chain (suc fuel) q n (m ∷ ms) c d h =
      let away : last m ms ≢ n = All-last (λ k. k ≢ n) m ms d.0.0 d.0.1 in
      ground (arith, iterate-Chain fuel q m ms c.2 d.1)

  begin_node-some : (q : RwQueue A) (n : ℕ) → q.next q.head ≡ n → n ≢ 0 → begin_node q ≡ n
  unfolding begin_node empty
  begin_node-some q n e nz = ground arith

  begin_node-none : (q : RwQueue A) → q.next q.head ≡ 0 → begin_node q ≡ q.head
  unfolding begin_node empty
  begin_node-none q e = ground arith

  end_node-last : (fuel : ℕ) (q : RwQueue A) (n : ℕ) → q.next n ≡ 0 → end_node fuel q n ≡ n
  unfolding end_node
  end_node-last zero q n e = refl
  end_node-last (suc fuel) q n e = ground arith

  iterate-same : (fuel : ℕ) (q : RwQueue A) (n : ℕ) → iterate fuel q n n ≡ []
  unfolding iterate
  iterate-same zero q n = refl
  iterate-same (suc fuel) q n = ground arith

  -- All items but the last.
  abbrev pub but_last : List A → List A
  but_last [] = []
  but_last (x ∷ []) = []
  but_last (x ∷ y ∷ ys) = x ∷ but_last (y ∷ ys)

  but_last-append : (xs : List A) (v : A) → but_last (xs ++ (v ∷ [])) ≡ xs
  but_last-append [] v = refl
  but_last-append (x ∷ []) v = refl
  but_last-append (x ∷ y ∷ ys) v = ap (◌∷◌ x) (but_last-append (y ∷ ys) v)

  iterate_some :
      (fuel : ℕ) {q : RwQueue A} (n : ℕ) (ns : List ℕ)
      → IsValid q (n ∷ ns)
      → length ns < fuel
      → iterate fuel q (begin_node q) (end_node fuel q q.tail) ++ (q.value q.tail ∷ [])
        ≡ contents q (n ∷ ns)
  iterate_some fuel {q} n ns v h =
      let chain : Chain q.next n ns = v.list.chain.2 in
      let at_end : q.next q.tail ≡ 0 = ap q.next v.list.at_tail ∙ Chain-last q.next n ns chain in
      rw (begin_node-some q n v.list.chain.0 v.list.chain.1, end_node-last fuel q q.tail at_end)
        (ap (λ t. iterate fuel q n t ++ (q.value t ∷ [])) v.list.at_tail
          ∙ iterate-Chain fuel q n ns chain v.list.distinct.1 h)

  -- The loop from `begin()` to `end()` sees, in order, all items of the queue but the last, since
  -- `end()` is the last node and not one past it; of an empty queue it sees none. The queue must
  -- be a valid list of nodes, as calls leave it, and the fuel at least the number of items.
  pub iterate_lem :
      (fuel : ℕ) {q : RwQueue A} (ns : List ℕ)
      → IsValid q ns
      → length ns ≤ fuel
      → iterate fuel q (begin_node q) (end_node fuel q q.tail) ≡ but_last (contents q ns)
  iterate_lem fuel {q} [] v h =
      let at_end : q.next q.tail ≡ 0 = ap q.next v.list.at_tail ∙ v.list.chain in
      rw (begin_node-none q v.list.chain, end_node-last fuel q q.tail at_end)
        (ap (iterate fuel q q.head) v.list.at_tail ∙ iterate-same fuel q q.head)
  iterate_lem fuel {q} (n ∷ ns) v h =
      let seen = iterate fuel q (begin_node q) (end_node fuel q q.tail) in
      sym (but_last-append seen (q.value q.tail))
      ∙ ap but_last (iterate_some fuel n ns v (omega arith))
