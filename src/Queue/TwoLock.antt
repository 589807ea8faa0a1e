-- ===== src/Queue/TwoLock.antt =====
-- cds/queue/rwqueue.h: `RWQueue`, the two-lock queue of Michael and Scott, a list with a dummy node at
-- its head.
pub mod Chain
pub mod Calls
pub mod Reclaim
mod Tests
use temp_data_structure_benc.Prelude.{
  ℕ, zero, suc, ◌+◌, ◌-◌, ◌%◌, ◌^◌, Bool, true, false, Option, none, some, List, [], ◌∷◌, Array,
  update, ◌≡◌, ◌≢◌, ◌==◌, if◌then◌else◌,
}
use temp_data_structure_benc.Fifo.{Op, put, get, Reply}

-- The fields of the nodes as arrays over their addresses, with NULL as 0, and which addresses have
-- been allocated and not freed. The item counter is a `size_t`.
pub record RwQueue (A : Type 0) : Type 0 where
  pub next : Array ℕ
  pub value : Array A
  pub live : Array Bool
  pub head : ℕ
  pub tail : ℕ
  pub item_counter : ℕ

module _ {A : Type 0} where
  -- `m_Allocator.New` at the address that the allocator hands out
  abbrev pub alloc_node : RwQueue A → ℕ → RwQueue A
  alloc_node q node = record q { next = update q.next node 0; live = update q.live node true }

  abbrev pub free_node : RwQueue A → ℕ → RwQueue A
  free_node q node = record q { live = update q.live node false }

  -- The constructor, over whatever the memory holds.
  abbrev pub new : Array ℕ → Array A → ℕ → RwQueue A
  new next value node = record {
    next = update next node 0;
    value = value;
    live = update (λ _. false) node true;
    head = node;
    tail = node;
    item_counter = 0;
  }

  unfoldable pub enqueue : RwQueue A → ℕ → A → RwQueue A
  enqueue q node item =
      let q' = alloc_node q node in
      record q' {
        value = update q.value node item;
        next = update q'.next q.tail node;
        tail = node;
        item_counter = (q.item_counter + 1) % 2 ^ 64;
      }

  unfoldable pub dequeue : RwQueue A → Reply A × RwQueue A
  dequeue q =
      let node = q.head in
      let new_head = q.next node in
      if new_head == 0 then ((false, none), q) else (
        (true, some (q.value new_head)),
        record (free_node q node) {
          head = new_head;
          item_counter = (q.item_counter + 2 ^ 64 - 1) % 2 ^ 64;
        },
      )

  pub empty : RwQueue A → Bool
  empty q = q.next q.head == 0

  -- The loop of `clear`, with the number of nodes removed; `none` when the fuel runs out.
  pub clear_loop : ℕ → ℕ → RwQueue A → Option (ℕ × RwQueue A)
  clear_loop zero removed q = none
  clear_loop (suc fuel) removed q =
      let rest =
        clear_loop fuel (removed + 1) (record (free_node q q.head) { head = q.next q.head }) in
      if q.next q.head == 0 then some (removed, q) else rest

  pub clear : ℕ → RwQueue A → Option (ℕ × RwQueue A)
  clear fuel q = clear_loop fuel 0 q

  pub size : RwQueue A → ℕ
  size q = q.item_counter

  -- The node of `begin()`.
  pub begin_node : RwQueue A → ℕ
  begin_node q = if empty q then q.head else q.next q.head

  -- The node of `end()`: from the tail on to the last node.
  pub end_node : ℕ → RwQueue A → ℕ → ℕ
  end_node zero q node = node
  end_node (suc fuel) q node =
      let rest = end_node fuel q (q.next node) in if q.next node == 0 then node else rest

  -- `for (it = begin(); it != end(); ++it)`: the items that the loop sees.
  pub iterate : ℕ → RwQueue A → ℕ → ℕ → List A
  iterate zero q node end = []
  iterate (suc fuel) q node end =
      let rest = iterate fuel q (q.next node) end in if node == end then [] else q.value node ∷ rest

-- A client's calls in order, with what each returns. The allocator hands out any address that is not
-- NULL and not in use.
pub data Runs {A : Type 0} : RwQueue A → List (Op A) → List (Reply A) → Type 0 where
  done : {q : RwQueue A} → Runs q [] []
  put_next :
      {q : RwQueue A} (node : ℕ) (item : A) {ops : List (Op A)} {replies : List (Reply A)}
      → node ≢ 0
      → q.live node ≡ false
      → Runs (enqueue q node item) ops replies
      → Runs q (put item ∷ ops) ((true, none) ∷ replies)
  get_next :
      {q : RwQueue A} {ops : List (Op A)} {replies : List (Reply A)}
      → Runs (dequeue q).1 ops replies
      → Runs q (get ∷ ops) ((dequeue q).0 ∷ replies)
