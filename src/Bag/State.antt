-- ===== src/Bag/State.antt =====
-- The data of an `SBag`: its blocks, an array of list heads, and the threads' own data.
use temp_data_structure_benc.Prelude.{ℕ, Bool, true, false, Array, update}

-- marked_ptr<Block, 3>: an address with its two lowest bits. The address 0 is NULL.
pub record Link : Type 0 where
  pub ptr : ℕ
  pub mark1 : Bool
  pub mark2 : Bool

abbrev pub plain : ℕ → Link
plain p = record { ptr = p; mark1 = false; mark2 = false }

-- `(Block *) 1`
abbrev pub deleted_link : Link
deleted_link = record { ptr = 0; mark1 = true; mark2 = false }

-- `TLSData`. `thread_head` and `steal_head` are never negative.
pub record Tls : Type 0 where
  pub thread_block : ℕ
  pub thread_head : ℕ
  pub thread_id : ℕ
  pub steal_block : ℕ
  pub steal_prev : ℕ
  pub steal_head : ℕ
  pub steal_index : ℕ
  pub found_add : Bool

-- The fields of the blocks as arrays over their addresses. The addresses `1 .. used` have been
-- allocated; none is freed, since `DeleteNode` does nothing.
pub record Bag : Type 0 where
  pub heads : Array ℕ  -- m_pGlobalHeadBlock
  pub next : Array Link  -- m_pNext
  pub items : Array (Array ℕ)  -- m_data
  pub notify : Array (Array ℕ)  -- m_notifyAdd
  pub used : ℕ
  pub sentinel : ℕ

abbrev pub set_item : Array (Array ℕ) → ℕ → ℕ → ℕ → Array (Array ℕ)
set_item items block slot v = update items block (update (items block) slot v)

-- a store to the link of a block
abbrev pub set_next : Bag → ℕ → Link → Bag
set_next b block link = record b { next = update b.next block link }

-- The constructor, over whatever the memory holds.
abbrev pub new : ℕ → Array Link → Array (Array ℕ) → Array (Array ℕ) → Bag
new sentinel next items notify = record {
  heads = λ _. 0;
  next = next;
  items = items;
  notify = notify;
  used = 0;
  sentinel = sentinel;
}

-- `initThread`: a thread starts from the head of its own list. `m_bFoundAdd` is left as it is in
-- memory; `TryStealBlock` sets it before it is read.
abbrev pub init_thread : ℕ → Bag → ℕ → Bool → Tls
init_thread size b thread_id garbage = record {
  thread_block = b.heads thread_id;
  thread_head = size;
  thread_id = thread_id;
  steal_block = 0;
  steal_prev = 0;
  steal_head = size;
  steal_index = 0;
  found_add = garbage;
}
