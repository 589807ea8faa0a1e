-- ===== src/Stack/Treiber.antt =====
-- cds/stack/stack_hzp.h: Treiber's stack with hazard pointers, under any number of threads.
-- Every access to a shared variable is a step. The accesses are taken to be sequentially consistent.
pub mod Invariant
pub mod Kinds
pub mod Keeps
pub mod Steps
pub mod Lifo
mod Tests
use temp_data_structure_benc.Prelude.{
  ℕ, zero, suc, ◌≡◌, ◌≢◌, ◌+◌, Bool, true, false, Option, none, some, List, [], ◌∷◌, Array, update,
}

-- Where a thread stands.
pub data Worker : Type 0 where
  idle : Worker
  push : (node : ℕ) → Worker  -- before the load of m_pTop
  push_store : (node t : ℕ) → Worker  -- before the store to m_pNext
  push_cas : (node t : ℕ) → Worker
  pop : Worker  -- before the load of m_pTop
  pop_guard : (t : ℕ) → Worker  -- before `hpGuard = t`
  pop_check : (t : ℕ) → Worker  -- before the second load of m_pTop
  pop_next : (t : ℕ) → Worker  -- before the load of m_pNext
  pop_cas : (t next : ℕ) → Worker
  taken : (t : ℕ) → Worker  -- before `data = t->m_Data`
  retiring : (t : ℕ) → Worker  -- before retirePtr
  clear : Worker  -- before the load of m_pTop
  clear_guard : (t : ℕ) → Worker  -- before `hpGuard = pTop`
  clear_check : (t : ℕ) → Worker  -- before the second load of m_pTop
  clear_cas : (t : ℕ) → Worker
  clearing : (top removed : ℕ) → Worker  -- at the head of the second loop
  clear_retire : (p top removed : ℕ) → Worker  -- before retirePtr

-- The links, of which 0 is `m_pTop` and the others stand in the nodes, m_Data, which nodes have been
-- allocated and not freed, which have been retired, and the threads. NULL is 0.
pub record System : Type 0 where
  pub next : Array ℕ
  pub value : Array ℕ
  pub live : Array Bool
  pub retired : Array Bool
  pub worker : Array Worker

abbrev pub start : System
start = record {
  next = λ _. 0;
  value = λ _. 0;
  live = λ _. false;
  retired = λ _. false;
  worker = λ _. Worker.idle;
}

abbrev pub at : System → ℕ → Worker → System
at s tid w = record s { worker = update s.worker tid w }

-- allocNode, with what the constructor stores.
abbrev pub alloc_node : System → ℕ → ℕ → System
alloc_node s node v = record s {
  next = update s.next node 0;
  value = update s.value node v;
  live = update s.live node true;
}

-- The node that the guard of a thread has been found to protect.
abbrev pub holds : Worker → Option ℕ
holds (Worker.pop_next t) = some t
holds (Worker.pop_cas t next) = some t
holds (Worker.clear_cas t) = some t
holds _ = none

-- One access of the thread `tid`. In `release` the collector frees a node: it may free what has been
-- retired, as long as no guard has been found to protect it.
pub data Step (s : System) (tid : ℕ) : System → Type 0 where
  begin_push :
      (node v : ℕ)
      → s.worker tid ≡ Worker.idle
      → node ≢ 0
      → s.live node ≡ false
      → Step s tid (at (alloc_node s node v) tid (Worker.push node))
  push_load :
      (node : ℕ)
      → s.worker tid ≡ Worker.push node
      → Step s tid (at s tid (Worker.push_store node (s.next 0)))
  push_set :
      (node t : ℕ)
      → s.worker tid ≡ Worker.push_store node t
      → Step s tid (record (at s tid (Worker.push_cas node t)) { next = update s.next node t })
  push_fails :
      (node t : ℕ)
      → s.worker tid ≡ Worker.push_cas node t
      → s.next 0 ≢ t
      → Step s tid (at s tid (Worker.push node))
  push_true :
      (node t : ℕ)
      → s.worker tid ≡ Worker.push_cas node t
      → s.next 0 ≡ t
      → Step s tid (record (at s tid Worker.idle) { next = update s.next 0 node })
  begin_pop : s.worker tid ≡ Worker.idle → Step s tid (at s tid Worker.pop)
  pop_false : s.worker tid ≡ Worker.pop → s.next 0 ≡ 0 → Step s tid (at s tid Worker.idle)
  pop_load :
      s.worker tid ≡ Worker.pop → s.next 0 ≢ 0 → Step s tid (at s tid (Worker.pop_guard (s.next 0)))
  pop_guarded :
      (t : ℕ) → s.worker tid ≡ Worker.pop_guard t → Step s tid (at s tid (Worker.pop_check t))
  pop_changed :
      (t : ℕ) → s.worker tid ≡ Worker.pop_check t → s.next 0 ≢ t → Step s tid (at s tid Worker.pop)
  pop_same :
      (t : ℕ)
      → s.worker tid ≡ Worker.pop_check t
      → s.next 0 ≡ t
      → Step s tid (at s tid (Worker.pop_next t))
  load_next :
      (t : ℕ)
      → s.worker tid ≡ Worker.pop_next t
      → Step s tid (at s tid (Worker.pop_cas t (s.next t)))
  pop_fails :
      (t succ : ℕ)
      → s.worker tid ≡ Worker.pop_cas t succ
      → s.next 0 ≢ t
      → Step s tid (at s tid Worker.pop)
  pop_true :
      (t succ : ℕ)
      → s.worker tid ≡ Worker.pop_cas t succ
      → s.next 0 ≡ t
      → Step s tid (record (at s tid (Worker.taken t)) { next = update s.next 0 succ })
  take_data : (t : ℕ) → s.worker tid ≡ Worker.taken t → Step s tid (at s tid (Worker.retiring t))
  retire :
      (t : ℕ)
      → s.worker tid ≡ Worker.retiring t
      → Step s tid (record (at s tid Worker.idle) { retired = update s.retired t true })
  begin_clear : s.worker tid ≡ Worker.idle → Step s tid (at s tid Worker.clear)
  clear_empty : s.worker tid ≡ Worker.clear → s.next 0 ≡ 0 → Step s tid (at s tid Worker.idle)
  clear_load :
      s.worker tid ≡ Worker.clear
      → s.next 0 ≢ 0
      → Step s tid (at s tid (Worker.clear_guard (s.next 0)))
  clear_guarded :
      (t : ℕ) → s.worker tid ≡ Worker.clear_guard t → Step s tid (at s tid (Worker.clear_check t))
  clear_changed :
      (t : ℕ)
      → s.worker tid ≡ Worker.clear_check t
      → s.next 0 ≢ t
      → Step s tid (at s tid Worker.clear)
  clear_same :
      (t : ℕ)
      → s.worker tid ≡ Worker.clear_check t
      → s.next 0 ≡ t
      → Step s tid (at s tid (Worker.clear_cas t))
  clear_fails :
      (t : ℕ)
      → s.worker tid ≡ Worker.clear_cas t
      → s.next 0 ≢ t
      → Step s tid (at s tid Worker.clear)
  clear_true :
      (t : ℕ)
      → s.worker tid ≡ Worker.clear_cas t
      → s.next 0 ≡ t
      → Step s tid (record (at s tid (Worker.clearing t 0)) { next = update s.next 0 0 })
  clear_next :
      (p removed : ℕ)
      → s.worker tid ≡ Worker.clearing p removed
      → p ≢ 0
      → Step s tid (at s tid (Worker.clear_retire p (s.next p) removed))
  clear_one :
      (p top removed : ℕ)
      → s.worker tid ≡ Worker.clear_retire p top removed
      → Step s tid (record (at s tid (Worker.clearing top (suc removed))) {
        retired = update s.retired p true;
      })
  clear_end :
      (p removed : ℕ)
      → s.worker tid ≡ Worker.clearing p removed
      → p ≡ 0
      → Step s tid (at s tid Worker.idle)
  release :
      (n : ℕ)
      → s.retired n ≡ true
      → ((u : ℕ) → holds (s.worker u) ≢ some n)
      → Step s tid (record s { live = update s.live n false; retired = update s.retired n false })

pub data Reach : System → Type 0 where
  here : Reach start
  next : {s t : System} (tid : ℕ) → Reach s → Step s tid t → Reach t
