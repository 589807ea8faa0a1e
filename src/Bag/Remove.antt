-- ===== src/Bag/Remove.antt =====
-- `TryStealBlock`, `NextStealBlock` and `tryRemoveAny` of sbag_hrc.h.
pub mod Stays
pub mod Effects
pub mod Takes
pub mod Returns
pub mod Lists
pub mod Walk
pub mod Ready
pub mod Seen
pub mod Scan
pub mod Cut
pub mod Advance
pub mod Pass
pub mod Rounds
pub mod Rewalk
pub mod Lost
pub mod Stale
pub mod Unlink
pub mod Ending
pub mod Own
pub mod Fuel
use temp_data_structure_benc.Prelude.{
  ℕ, zero, suc, ◌+◌, ◌-◌, ◌%◌, Bool, true, false, not, xor, ◌&&◌, ◌||◌, Array, update, ◌==◌, ltb,
  leb, if◌then◌else◌,
}
use temp_data_structure_benc.Bag.State.{Link, plain, deleted_link, Tls, Bag, set_item, set_next}
use temp_data_structure_benc.Bag.Blocks.{notify_all, notify_start, notify_check, mark1_block}

-- How a call ends: with an item, with `false`, by following NULL, or not within its fuel.
pub data Outcome : Type 0 where
  removed : (item : ℕ) → Bag → Tls → Outcome
  empty : Bag → Tls → Outcome
  null_deref : Bag → Tls → Outcome
  unfinished : Bag → Tls → Outcome

-- How NextStealBlock ends: with a block to steal from, or in one of the last two ways.
pub data Found : Type 0 where
  block_at : (block : ℕ) → Bag → Tls → Found
  null_deref : Bag → Tls → Found
  unfinished : Bag → Tls → Found

-- What the middle of the loop of NextStealBlock does: `continue` at a block, or go on to the exit
-- test.
pub data Visit : Type 0 where
  again : (block : ℕ) → Bag → Tls → Visit
  onward : Bag → Tls → Visit

-- `m_pStealPrev = NULL; block = head; continue`
abbrev restart : Bag → Tls → Visit
restart b t = Visit.again (b.heads t.steal_index) b (record t { steal_prev = 0 })

abbrev pub link_eq : Link → Link → Bool
link_eq l m = l.ptr == m.ptr && not (xor l.mark1 m.mark1) && not (xor l.mark2 m.mark2)

-- `if (!next.isNull()) NotifyAll(next.ptr())`
pub notify_next : Bag → Link → Bag
notify_next b next = if next.ptr == 0 then b else notify_all b next.ptr

-- The branch for the first block of a list, or the last.
pub visit_end : Bag → Tls → ℕ → Link → Visit
visit_end b t block next =
    let b' = notify_next b next in
    if next.mark1
    then if b'.heads t.steal_index == block
      then Visit.onward
          (set_next (record b' { heads = update b'.heads t.steal_index next.ptr }) block
            deleted_link)
          t
      else restart b' t
    else Visit.onward b (record t { steal_prev = block })

-- The branch for a block that has a predecessor, `m_pStealPrev`, and a successor.
pub visit_middle : Bag → Tls → ℕ → Link → Visit
visit_middle b t block next =
    let before = b.next t.steal_prev in
    if next.mark1
    then if link_eq before (record { ptr = block; mark1 = false; mark2 = before.mark2 })
      then Visit.onward
          (set_next
            (set_next b t.steal_prev (record { ptr = next.ptr; mark1 = false; mark2 = next.mark2 }))
            block deleted_link)
          t
      else restart b t
    else if block == t.steal_block
    then if link_eq before (plain block)
      then Visit.again block
          (mark1_block
            (set_next b t.steal_prev (record { ptr = block; mark1 = false; mark2 = true })) block)
          t
      else restart b t
    else Visit.onward b (record t { steal_prev = block })

-- `if (next.isMarked(2)) Mark1Block(next.ptr())`
pub mark_next : Bag → Link → Bag
mark_next b next = if next.mark2 then mark1_block b next.ptr else b

-- The end of a round of the loop, which goes on by `loop`.
pub follow : (ℕ → Bag → Tls → Found) → ℕ → ℕ → Visit → Found
follow loop block next (Visit.again block' b t) = loop block' b t
follow loop block next (Visit.onward b t) =
    let more = loop next b t in
    if block == t.steal_block || next == t.steal_block then Found.block_at next b t else more

-- NextStealBlock, which is called at `block = m_pStealBlock`.
pub next_steal_block : ℕ → ℕ → Bag → Tls → Found
next_steal_block zero block b t = Found.unfinished b t
next_steal_block (suc fuel) block b t =
    let next = b.next block in
    let b' = mark_next b next in
    let visit =
      if t.steal_prev == 0 || next.ptr == 0
      then visit_end b' t block next
      else visit_middle b' t block next in
    let rest = follow (next_steal_block fuel) block next.ptr visit in
    if block == 0
    then Found.block_at (b.heads t.steal_index) b t
    else if next.mark2 && next.ptr == 0
    then Found.null_deref b t
    else rest

-- The scan of TryStealBlock and its like: the first slot from `head` on that is taken, with `n`
-- slots left to look at.
unfoldable pub first_taken : Bag → ℕ → ℕ → ℕ → ℕ
first_taken b block zero head = head
first_taken b block (suc n) head =
    let rest = first_taken b block n (head + 1) in
    if b.items block head == b.sentinel then rest else head

-- The loop that takes the thread's own blocks off the head of its list: the block at which it
-- ends, if it does not follow NULL.
pub unlink_own : ℕ → ℕ → Bag → Tls → Found
unlink_own zero block b t = Found.unfinished b t
unlink_own (suc fuel) block b t =
    let next = b.next block in
    let b' = mark_next b next in
    let b'' = notify_next b' next in
    let unlinked =
      unlink_own fuel next.ptr
        (set_next (record b'' { heads = update b''.heads t.thread_id next.ptr }) block deleted_link)
        t in
    let reread = unlink_own fuel (b''.heads t.thread_id) b'' t in
    if block == 0 || next.mark2 && next.ptr == 0
    then Found.null_deref b t
    else if not next.mark1
    then Found.block_at block b' t
    else if b''.heads t.thread_id == block
    then unlinked
    else reread

module _ (size threads : ℕ) where
  -- TryStealBlock from the point where `block` and `head` are settled.
  unfoldable pub steal_from : ℕ → Bag → Tls → ℕ → ℕ → Outcome
  steal_from round b t block head =
      let noted = if round == 1 then notify_start b block t.thread_id else b in
      let t' = record t {
        found_add = not (round == 1) && ltb 1 round && notify_check b block t.thread_id;
      } in
      let slot = first_taken noted block (size - head) head in
      let item = noted.items block slot in
      if block == 0
      then Outcome.empty b (record t {
        steal_index = (t.steal_index + 1) % threads;
        steal_head = 0;
        steal_block = 0;
        steal_prev = 0;
      })
      else if slot == size
      then Outcome.empty noted (record t' { steal_head = slot })
      else Outcome.removed item
          (record noted { items = set_item noted.items block slot noted.sentinel })
          (record t' { steal_head = slot })

  -- What TryStealBlock does with the answer of NextStealBlock.
  pub steal_next : ℕ → Found → Outcome
  steal_next round (Found.block_at block b t) =
      steal_from round b (record t { steal_block = block }) block 0
  steal_next round (Found.null_deref b t) = Outcome.null_deref b t
  steal_next round (Found.unfinished b t) = Outcome.unfinished b t

  -- TryStealBlock; `empty` stands for `false`, here and below.
  unfoldable pub try_steal_block : ℕ → ℕ → Bag → Tls → Outcome
  try_steal_block fuel round b t =
      let t' =
        if t.steal_block == 0
        then record t { steal_block = b.heads t.steal_index; steal_head = 0; found_add = false }
        else record t { found_add = false } in
      if t'.steal_head == size
      then steal_next round (next_steal_block fuel t'.steal_block b t')
      else steal_from round b t' t'.steal_block t'.steal_head

  -- The tests behind a call of TryStealBlock in the two `do` loops, which go on by `loop`.
  unfoldable pub retry : (ℕ → ℕ → Bag → Tls → Outcome) → ℕ → ℕ → Outcome → Outcome
  retry loop round i (Outcome.empty b t) =
      let round' = if t.found_add then 0 else round in
      let i' = if t.found_add then 0 else if t.steal_block == 0 then i + 1 else i in
      let inner = loop round' i' b t in
      let outer = loop (round' + 1) 0 b t in
      if ltb i' threads
      then inner
      else if leb (round' + 1) threads
      then outer
      else Outcome.empty b t
  retry loop round i other = other

  -- The two `do` loops of tryRemoveAny. Each NextStealBlock gets the fuel `walk`.
  unfoldable pub steal_rounds : ℕ → ℕ → ℕ → ℕ → Bag → Tls → Outcome
  steal_rounds walk zero round i b t = Outcome.unfinished b t
  steal_rounds walk (suc fuel) round i b t =
      retry (steal_rounds walk fuel) round i (try_steal_block walk round b t)

  -- What the outer loop does with the block where the unlinking ends.
  pub settle : (ℕ → ℕ → Bag → Tls → Outcome) → Found → Outcome
  settle loop (Found.block_at block b t) =
      loop size block b (record t { thread_block = block; thread_head = size })
  settle loop (Found.null_deref b t) = Outcome.null_deref b t
  settle loop (Found.unfinished b t) = Outcome.unfinished b t

  -- The outer loop of tryRemoveAny. `above` is `head + 1`, since `head` goes down to -1.
  unfoldable pub remove_own : ℕ → ℕ → ℕ → ℕ → Bag → Tls → Outcome
  remove_own walk zero above block b t = Outcome.unfinished b t
  remove_own walk (suc fuel) above block b t =
      let slot = above - 1 in
      let item = b.items block slot in
      let steal = steal_rounds walk walk 0 0 b t in
      let unlinked =
        settle (remove_own walk fuel) (unlink_own walk block (mark1_block b block) t) in
      let lower = remove_own walk fuel slot block b t in
      if block == 0 || above == 0 && (b.next block).ptr == 0
      then steal
      else if above == 0
      then unlinked
      else if item == b.sentinel
      then lower
      else Outcome.removed item (record b { items = set_item b.items block slot b.sentinel })
          (record t { thread_head = slot })

  unfoldable pub try_remove_any : ℕ → Bag → Tls → Outcome
  try_remove_any fuel b t = remove_own fuel fuel t.thread_head t.thread_block b t
