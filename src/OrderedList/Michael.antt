-- ===== src/OrderedList/Michael.antt =====
-- cds/ordered_list/michael_list_nogc.h: Michael's list without deletion, under any number of threads.
-- Every access to a link is a step. The accesses are taken to be sequentially consistent.
pub mod Chain
pub mod Invariant
pub mod Kinds
pub mod Insert
pub mod Sorted
pub mod Search
pub mod Clear
mod Tests
use temp_data_structure_benc.Prelude.{
  ℕ, zero, suc, ◌≡◌, ◌≢◌, ◌<◌, ◌≤◌, Bool, true, false, Option, none, some, List, [], ◌∷◌, ◌++◌,
  Array, update, ◌==◌, if◌then◌else◌,
}

-- What a search is for: find; insert, with its new node, without and with a functor; ensure, before
-- and after it has allocated its node; emplace.
pub data Purpose : Type 0 where
  find : Purpose
  insert : (node : ℕ) → Purpose
  insert_change : (val node : ℕ) → Purpose
  ensure : (val : ℕ) → Purpose
  ensure_new : (val node : ℕ) → Purpose
  emplace : (val : ℕ) → Purpose

-- Where a thread stands. A link is named by the node that it stands in, and `m_pHead` by 0; a pointer
-- to a node is its address, and NULL is 0.
pub data Worker : Type 0 where
  idle : Worker
  try_again : (purpose : Purpose) (key : ℕ) → Worker  -- before `pCur = *pPrev`
  looping : (purpose : Purpose) (key prev cur : ℕ) → Worker  -- at the head of the loop
  reload : (purpose : Purpose) (key prev cur next : ℕ) → Worker  -- before the second load of m_pNext
  recheck : (purpose : Purpose) (key prev cur next : ℕ) → Worker  -- before the second load of *pPrev
  found : (purpose : Purpose) (key cur : ℕ) → Worker  -- search returns true
  missing : (purpose : Purpose) (key prev cur : ℕ) → Worker  -- search returns false
  link : (purpose : Purpose) (key prev cur : ℕ) → Worker  -- before the compare and swap of *ppPrev
  apply : (cur val : ℕ) (is_new : Bool) → Worker  -- ensure: before the call of the functor
  apply_change : (cur val : ℕ) → Worker  -- insert and emplace: before the call of the functor

-- The links, the fields of the nodes, which nodes have been allocated and not freed, and the threads.
pub record System : Type 0 where
  pub next : Array ℕ
  pub key : Array ℕ
  pub value : Array ℕ
  pub live : Array Bool
  pub worker : Array Worker

abbrev pub start : System
start = record {
  next = λ _. 0;
  key = λ _. 0;
  value = λ _. 0;
  live = λ _. false;
  worker = λ _. Worker.idle;
}

abbrev pub at : System → ℕ → Worker → System
at s tid w = record s { worker = update s.worker tid w }

-- The node that a thread has allocated and not linked.
abbrev pub node_of : Purpose → Option ℕ
node_of Purpose.find = none
node_of (Purpose.insert node) = some node
node_of (Purpose.insert_change val node) = some node
node_of (Purpose.ensure val) = none
node_of (Purpose.ensure_new val node) = some node
node_of (Purpose.emplace val) = none

-- allocNode, with what the constructor stores.
abbrev pub alloc_node : System → ℕ → ℕ → ℕ → System
alloc_node s node key val = record s {
  next = update s.next node 0;
  key = update s.key node key;
  value = update s.value node val;
  live = update s.live node true;
}

abbrev pub free_node : System → ℕ → System
free_node s node = record s { live = update s.live node false }

-- One access of the thread `tid`. `func` is the functor of ensure: the old value, the argument, and
-- whether the item is new give the new value; `change` is the functor of insert and emplace.
pub data Step (func : ℕ → ℕ → Bool → ℕ) (change : ℕ → ℕ → ℕ) (s : System) (tid : ℕ)
    : System → Type 0 where
  begin_find :
      (key : ℕ)
      → s.worker tid ≡ Worker.idle
      → Step func change s tid (at s tid (Worker.try_again Purpose.find key))
  begin_insert :
      (key val node : ℕ)
      → s.worker tid ≡ Worker.idle
      → node ≢ 0
      → s.live node ≡ false
      → Step func change s tid
          (at (alloc_node s node key val) tid (Worker.try_again (Purpose.insert node) key))
  begin_insert_change :
      (key val node garbage : ℕ)
      → s.worker tid ≡ Worker.idle
      → node ≢ 0
      → s.live node ≡ false
      → Step func change s tid (
          at
            (alloc_node s node key garbage)
            tid
            (Worker.try_again (Purpose.insert_change val node) key))
  begin_emplace :
      (key val : ℕ)
      → s.worker tid ≡ Worker.idle
      → Step func change s tid (at s tid (Worker.try_again (Purpose.emplace val) key))
  begin_ensure :
      (key val : ℕ)
      → s.worker tid ≡ Worker.idle
      → Step func change s tid (at s tid (Worker.try_again (Purpose.ensure val) key))
  load_head :
      (purpose : Purpose) (key : ℕ)
      → s.worker tid ≡ Worker.try_again purpose key
      → Step func change s tid (at s tid (Worker.looping purpose key 0 (s.next 0)))
  at_end :
      (purpose : Purpose) (key prev cur : ℕ)
      → s.worker tid ≡ Worker.looping purpose key prev cur
      → cur ≡ 0
      → Step func change s tid (at s tid (Worker.missing purpose key prev cur))
  load_next :
      (purpose : Purpose) (key prev cur : ℕ)
      → s.worker tid ≡ Worker.looping purpose key prev cur
      → cur ≢ 0
      → Step func change s tid (at s tid (Worker.reload purpose key prev cur (s.next cur)))
  next_changed :
      (purpose : Purpose) (key prev cur next : ℕ)
      → s.worker tid ≡ Worker.reload purpose key prev cur next
      → s.next cur ≢ next
      → Step func change s tid (at s tid (Worker.try_again purpose key))
  next_same :
      (purpose : Purpose) (key prev cur next : ℕ)
      → s.worker tid ≡ Worker.reload purpose key prev cur next
      → s.next cur ≡ next
      → Step func change s tid (at s tid (Worker.recheck purpose key prev cur next))
  prev_changed :
      (purpose : Purpose) (key prev cur next : ℕ)
      → s.worker tid ≡ Worker.recheck purpose key prev cur next
      → s.next prev ≢ cur
      → Step func change s tid (at s tid (Worker.try_again purpose key))
  less :
      (purpose : Purpose) (key prev cur next : ℕ)
      → s.worker tid ≡ Worker.recheck purpose key prev cur next
      → s.next prev ≡ cur
      → s.key cur < key
      → Step func change s tid (at s tid (Worker.looping purpose key cur next))
  equal :
      (purpose : Purpose) (key prev cur next : ℕ)
      → s.worker tid ≡ Worker.recheck purpose key prev cur next
      → s.next prev ≡ cur
      → s.key cur ≡ key
      → Step func change s tid (at s tid (Worker.found purpose key cur))
  greater :
      (purpose : Purpose) (key prev cur next : ℕ)
      → s.worker tid ≡ Worker.recheck purpose key prev cur next
      → s.next prev ≡ cur
      → key < s.key cur
      → Step func change s tid (at s tid (Worker.missing purpose key prev cur))
  find_true :
      (key cur : ℕ)
      → s.worker tid ≡ Worker.found Purpose.find key cur
      → Step func change s tid (at s tid Worker.idle)
  find_false :
      (key prev cur : ℕ)
      → s.worker tid ≡ Worker.missing Purpose.find key prev cur
      → Step func change s tid (at s tid Worker.idle)
  insert_false :
      (node key cur : ℕ)
      → s.worker tid ≡ Worker.found (Purpose.insert node) key cur
      → Step func change s tid (at (free_node s node) tid Worker.idle)
  insert_change_false :
      (val node key cur : ℕ)
      → s.worker tid ≡ Worker.found (Purpose.insert_change val node) key cur
      → Step func change s tid (at (free_node s node) tid Worker.idle)
  emplace_true :
      (val key cur : ℕ)
      → s.worker tid ≡ Worker.found (Purpose.emplace val) key cur
      → Step func change s tid (at s tid (Worker.apply_change cur val))
  emplace_false :
      (val key prev cur : ℕ)
      → s.worker tid ≡ Worker.missing (Purpose.emplace val) key prev cur
      → Step func change s tid (at s tid Worker.idle)
  ensure_old :
      (val key cur : ℕ)
      → s.worker tid ≡ Worker.found (Purpose.ensure val) key cur
      → Step func change s tid (at s tid (Worker.apply cur val false))
  ensure_alloc :
      (val key prev cur node : ℕ)
      → s.worker tid ≡ Worker.missing (Purpose.ensure val) key prev cur
      → node ≢ 0
      → s.live node ≡ false
      → (garbage : ℕ)
      → Step func change s tid (
          at
            (alloc_node s node key garbage)
            tid
            (Worker.try_again (Purpose.ensure_new val node) key))
  ensure_free :
      (val node key cur : ℕ)
      → s.worker tid ≡ Worker.found (Purpose.ensure_new val node) key cur
      → Step func change s tid (at (free_node s node) tid (Worker.apply cur val false))
  store_next :
      (purpose : Purpose) (node key prev cur : ℕ)
      → s.worker tid ≡ Worker.missing purpose key prev cur
      → node_of purpose ≡ some node
      → Step func change s tid
          (record (at s tid (Worker.link purpose key prev cur)) { next = update s.next node cur })
  cas_fails :
      (purpose : Purpose) (key prev cur : ℕ)
      → s.worker tid ≡ Worker.link purpose key prev cur
      → s.next prev ≢ cur
      → Step func change s tid (at s tid (Worker.try_again purpose key))
  insert_true :
      (node key prev cur : ℕ)
      → s.worker tid ≡ Worker.link (Purpose.insert node) key prev cur
      → s.next prev ≡ cur
      → Step func change s tid (record (at s tid Worker.idle) { next = update s.next prev node })
  insert_change_true :
      (val node key prev cur : ℕ)
      → s.worker tid ≡ Worker.link (Purpose.insert_change val node) key prev cur
      → s.next prev ≡ cur
      → Step func change s tid
          (record (at s tid (Worker.apply_change node val)) { next = update s.next prev node })
  ensure_true :
      (val node key prev cur : ℕ)
      → s.worker tid ≡ Worker.link (Purpose.ensure_new val node) key prev cur
      → s.next prev ≡ cur
      → Step func change s tid
          (record (at s tid (Worker.apply node val true)) { next = update s.next prev node })
  call_func :
      (cur val : ℕ) (is_new : Bool)
      → s.worker tid ≡ Worker.apply cur val is_new
      → Step func change s tid (record (at s tid Worker.idle) {
        value = update s.value cur (func (s.value cur) val is_new);
      })
  call_change :
      (cur val : ℕ)
      → s.worker tid ≡ Worker.apply_change cur val
      → Step func change s tid
          (record (at s tid Worker.idle) { value = update s.value cur (change (s.value cur) val) })

pub data Reach (func : ℕ → ℕ → Bool → ℕ) (change : ℕ → ℕ → ℕ) : System → Type 0 where
  here : Reach func change start
  next :
      {s t : System} (tid : ℕ)
      → Reach func change s
      → Step func change s tid t
      → Reach func change t
