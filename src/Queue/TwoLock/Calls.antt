-- ===== src/Queue/TwoLock/Calls.antt =====
-- The calls of `RWQueue` against a list of items.
use temp_data_structure_benc.Prelude.{
  ℕ, ◌+◌, ◌-◌, ◌%◌, ◌^◌, ◌≡◌, ◌≢◌, ◌↔◌, refl, sym, ap, ◌∙◌, Bool, true, false, none, some, List, [],
  ◌∷◌, ◌++◌, map, map-append, length, length-append, Array, update, update_self, update_ne, All,
  All-imp, All-both, All-append, All-split, arith,
}
use native.Mathlib.Decide.{ℕ_discrete}
use temp_data_structure_benc.Fifo
use temp_data_structure_benc.Fifo.{Op, Reply, put, get}
use temp_data_structure_benc.Queue.TwoLock.{
  RwQueue, new, enqueue, dequeue, empty, Runs, done, put_next, get_next,
}
use temp_data_structure_benc.Queue.TwoLock.Chain.{
  Chain, last, Distinct, Chain-append, Distinct-append, last-append, map-update,
}

-- The dummy node at the head and the nodes `ns` behind it form the list from head to tail, and no
-- other node is allocated.
pub record IsList (next : Array ℕ) (live : Array Bool) (head tail : ℕ) (ns : List ℕ) : Type 0 where
  pub chain : Chain next head ns
  pub distinct : Distinct head ns
  pub at_tail : tail ≡ last head ns
  pub head_ne : head ≢ 0
  pub head_live : live head ≡ true
  pub nodes_live : All (λ n. live n ≡ true) ns
  pub others_free : (n : ℕ) → n ≢ head → All (λ m. m ≢ n) ns → live n ≡ false

-- The list without its first node.
pub IsList-rest :
    {next : Array ℕ} {live : Array Bool} {head tail n : ℕ} {ns : List ℕ}
    → IsList next live head tail (n ∷ ns)
    → IsList next (update live head false) n tail ns
IsList-rest {next} {live} {head} {tail} {n} {ns} v = record {
  chain = v.chain.2;
  distinct = v.distinct.1;
  at_tail = v.at_tail;
  head_ne = v.chain.1;
  head_live = rw (update_ne live false (λ e. v.distinct.0.0 (sym e))) v.nodes_live.0;
  nodes_live =
      All-imp ns (λ m h. rw (update_ne live false (λ e. h.0 (sym e))) h.1)
        (All-both (λ m. m ≢ head) (λ m. live m ≡ true) ns v.distinct.0.1 v.nodes_live.1);
  others_free = λ m ne a. elim (ℕ_discrete head m) [
    | yes e ↦ ap (update live head false) (sym e) ∙ update_self live head false
    | no other ↦
        rw (update_ne live false other) (v.others_free m (λ e. other (sym e)) (λ e. ne (sym e), a))
  ];
}

pub record IsValid {A : Type 0} (q : RwQueue A) (ns : List ℕ) : Type 0 where
  pub list : IsList q.next q.live q.head q.tail ns
  pub counted : q.item_counter ≡ length ns % 2 ^ 64

module _ {A : Type 0} where
  abbrev pub contents : RwQueue A → List ℕ → List A
  contents q ns = map q.value ns

  pub new-IsValid :
      (next : Array ℕ) (value : Array A) (node : ℕ) → node ≢ 0 → IsValid (new next value node) []
  new-IsValid next value node nz = record {
    list = record {
      chain = update_self next node 0;
      distinct = tt;
      at_tail = refl;
      head_ne = nz;
      head_live = update_self (λ _. false) node true;
      nodes_live = tt;
      others_free = λ n ne _. update_ne (λ _. false) true (λ e. ne (sym e));
    };
    counted = refl;
  }

module _ {A : Type 0} {q : RwQueue A} {ns : List ℕ} (v : IsValid q ns) where
  -- A node that is not allocated is none of the queue's.
  away : (node : ℕ) → q.live node ≡ false → (q.head ≢ node) × All (λ n. n ≢ node) ns
  away node free = (λ e. clash q.head v.list.head_live e, All-imp ns clash v.list.nodes_live)
    where
      clash : (n : ℕ) → q.live n ≡ true → n ≢ node
      clash n h e = ground (arith, ap q.live e)

  pub enqueue-IsValid :
      (node : ℕ) (x : A)
      → node ≢ 0
      → q.live node ≡ false
      → IsValid (enqueue q node x) (ns ++ (node ∷ []))
  unfolding enqueue
  enqueue-IsValid node x nz free = record {
    list = record {
      chain = rw v.list.at_tail (
          Chain-append q.next q.head ns node nz (away node free).0 (away node free).1
            v.list.distinct v.list.chain);
      distinct =
          Distinct-append q.head ns node (away node free).0 (away node free).1 v.list.distinct;
      at_tail = sym (last-append q.head ns node);
      head_ne = v.list.head_ne;
      head_live = ground (arith, v.list.head_live);
      nodes_live =
          All-append (λ n. update q.live node true n ≡ true) ns (node ∷ [])
            (All-imp ns (λ n h. ground arith) v.list.nodes_live) (update_self q.live node true, tt);
      others_free = λ n ne a.
          let (front, back) = All-split (λ m. m ≢ n) ns (node ∷ []) a in
          rw (update_ne q.live true back.0) (v.list.others_free n ne front);
    };
    counted = ground (arith, v.counted, length-append ns (node ∷ []));
  }

  pub enqueue-contents :
      (node : ℕ) (x : A)
      → q.live node ≡ false
      → contents (enqueue q node x) (ns ++ (node ∷ [])) ≡ contents q ns ++ (x ∷ [])
  unfolding enqueue
  enqueue-contents node x free =
      rw
        (
          map-append (update q.value node x) ns (node ∷ []),
          map-update q.value ns node x (away node free).1,
          update_self q.value node x,
        )
        refl

  -- `enqueue` at an address that the allocator has free appends the item.
  pub enqueue_appends :
      (node : ℕ) (x : A)
      → node ≢ 0
      → q.live node ≡ false
      → IsValid (enqueue q node x) (ns ++ (node ∷ []))
        × (contents (enqueue q node x) (ns ++ (node ∷ [])) ≡ contents q ns ++ (x ∷ []))
  enqueue_appends node x nz free = (enqueue-IsValid node x nz free, enqueue-contents node x free)

module _ {A : Type 0} where
  dequeue-none : (q : RwQueue A) → q.next q.head ≡ 0 → dequeue q ≡ ((false, none), q)
  unfolding dequeue
  dequeue-none q e = ground arith

  -- the queue after a `dequeue` that has found the node `n`
  abbrev without_head : RwQueue A → ℕ → RwQueue A
  without_head q n = record q {
    live = update q.live q.head false;
    head = n;
    item_counter = (q.item_counter + 2 ^ 64 - 1) % 2 ^ 64;
  }

  dequeue-some :
      (q : RwQueue A) (n : ℕ)
      → q.next q.head ≡ n
      → n ≢ 0
      → dequeue q ≡ ((true, some (q.value n)), without_head q n)
  unfolding dequeue
  dequeue-some q n e nz = ground arith

  without_head-IsValid :
      {q : RwQueue A} {n : ℕ} {ns : List ℕ} → IsValid q (n ∷ ns) → IsValid (without_head q n) ns
  without_head-IsValid v = record { list = IsList-rest v.list; counted = omega (arith, v.counted) }

  -- `dequeue` returns the oldest item, frees the old dummy node, and keeps the rest; of an empty
  -- queue it returns `false` and changes nothing.
  pub dequeue_pops :
      {q : RwQueue A} (ns : List ℕ)
      → IsValid q ns
      → (ns' : List ℕ) × (((dequeue q).0, contents (dequeue q).1 ns') ≡ Fifo.pop (contents q ns))
        × IsValid (dequeue q).1 ns'
  unfolding Fifo.pop
  dequeue_pops {q} [] v = rw (dequeue-none q v.list.chain) ([], refl, v)
  dequeue_pops {q} (n ∷ ns) v =
      rw (dequeue-some q n v.list.chain.0 v.list.chain.1) (ns, refl, without_head-IsValid v)

  -- `empty` tells an empty queue.
  pub empty_lem :
      {q : RwQueue A} (ns : List ℕ) → IsValid q ns → (empty q ≡ true) ↔ (contents q ns ≡ [])
  unfolding empty
  empty_lem [] v = ground (arith, v.list.chain)
  empty_lem (n ∷ ns) v = ground (arith, v.list.chain)

module _ {A : Type 0} where
  Runs_refines :
      {q : RwQueue A} {ns : List ℕ} {ops : List (Op A)} {replies : List (Reply A)}
      → IsValid q ns
      → Runs q ops replies
      → replies ≡ Fifo.run_unbounded (contents q ns) ops
  unfolding Fifo.run_unbounded
  Runs_refines v done = refl
  Runs_refines {ns} v (put_next {q} node x {ops} nz free r) =
      let (valid, appended) = enqueue_appends v node x nz free in
      ap (◌∷◌ (true, none)) (Runs_refines valid r ∙ ap (λ l. Fifo.run_unbounded l ops) appended)
  Runs_refines {ns} v (get_next {q} {ops} r) =
      let (ns', popped, valid) = dequeue_pops ns v in
      rw (Runs_refines valid r) (ap (λ p. p.0 ∷ Fifo.run_unbounded p.1 ops) popped)

  -- The replies of a new `RWQueue` to any sequence of calls are those of an unbounded queue, whatever
  -- addresses the allocator hands out among those that are not in use: a freed node may come back.
  pub Runs-new :
      (next : Array ℕ) (value : Array A) {node : ℕ} {ops : List (Op A)} {replies : List (Reply A)}
      → node ≢ 0
      → Runs (new next value node) ops replies
      → replies ≡ Fifo.run_unbounded [] ops
  Runs-new next value {node} nz r = Runs_refines (new-IsValid next value node nz) r
