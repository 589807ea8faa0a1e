-- ===== src/Bag/Blocks/Add.antt =====
-- `add` of sbag_hrc.h: it returns, with the item in a free slot.
use temp_data_structure_benc.Prelude.{
  ℕ, zero, suc, ◌+◌, ◌-◌, ◌≤◌, ◌<◌, ◌≡◌, ◌≢◌, refl, ap, ◌∙◌, ◌⊎◌, inr, Option, none, some, Array,
  arith, update, update_self,
}
use native.Mathlib.Decide.{ℕ_discrete}
use temp_data_structure_benc.Bag.State.{Tls, Bag, set_item, plain}
use temp_data_structure_benc.Bag.Blocks.{add, add_loop, new_block, notify_all}

-- Where an item has gone: into a free slot of a block, or into the first slot of a new block, which
-- then heads the thread's list in front of the block that was there.
pub data Puts (size : ℕ) (b : Bag) (t : Tls) (item : ℕ) : Option (Bag × Tls) → Type 0 where
  in_block :
      {b' : Bag} {t' : Tls} (block slot : ℕ)
      → block ≡ t.thread_block
      → block ≢ 0
      → slot < size
      → b.items block slot ≡ b.sentinel
      → b'.items ≡ set_item b.items block slot item
      → b'.used ≡ b.used
      → b'.sentinel ≡ b.sentinel
      → b'.heads ≡ b.heads
      → b'.next ≡ b.next
      → t' ≡ record t { thread_head = slot + 1 }
      → Puts size b t item (some (b', t'))
  in_new_block :
      {b' : Bag} {t' : Tls} (block : ℕ)
      → block ≡ b.used + 1
      → 0 < size
      → b'.items ≡ set_item (update b.items block (λ _. b.sentinel)) block 0 item
      → b'.used ≡ block
      → b'.sentinel ≡ b.sentinel
      → b'.heads ≡ update b.heads t.thread_id block
      → b'.next ≡ update (update b.next block (plain 0)) block (plain t.thread_block)
      → t' ≡ record t { thread_block = block; thread_head = 1 }
      → Puts size b t item (some (b', t'))

-- the state in which the loop looks at the first slot of the block that it has just made
abbrev with_block : Bag → Tls → ℕ → Bag
with_block b t old =
    let (fresh, b') = new_block b in
    record b' { next = update b'.next fresh (plain old); heads = update b'.heads t.thread_id fresh }

module _ (size fuel : ℕ) (b : Bag) (t : Tls) (item : ℕ) where
  add_loop_full :
      (block : ℕ)
      → add_loop size (suc fuel) b t item size block
        ≡ add_loop size fuel
            (with_block b t block)
            (record t { thread_block = b.used + 1 })
            item
            0
            (b.used + 1)
  unfolding add_loop new_block
  add_loop_full block = ground arith

  add_loop_free :
      (head block : ℕ)
      → head ≢ size
      → b.items block head ≡ b.sentinel
      → add_loop size (suc fuel) b t item head block
        ≡ some (
          record b {
            items = set_item b.items block head item;
            notify = update b.notify block (λ _. 0);
          },
          record t { thread_head = head + 1 },
        )
  unfolding add_loop notify_all
  add_loop_free head block h e = ground arith

  add_loop_taken :
      (head block : ℕ)
      → head ≢ size
      → b.items block head ≢ b.sentinel
      → add_loop size (suc fuel) b t item head block ≡ add_loop size fuel b t item (head + 1) block
  unfolding add_loop
  add_loop_taken head block h e = ground arith

module _ (size : ℕ) where
  add_loop-Puts_new :
      (fuel : ℕ) (b : Bag) (t : Tls) (item : ℕ)
      → 0 < size
      → Puts size b t item (add_loop size (suc (suc fuel)) b t item size t.thread_block)
  unfolding new_block
  add_loop-Puts_new fuel b t item pos =
      rw
        (
          add_loop_full size (suc fuel) b t item t.thread_block,
          add_loop_free size fuel (with_block b t t.thread_block)
              (record t { thread_block = b.used + 1 }) item 0 (b.used + 1) (omega arith)
              (ap (λ (f : Array ℕ). f 0) (update_self b.items (b.used + 1) (λ _. b.sentinel))),
        )
        (Puts.in_new_block (b.used + 1) refl pos refl refl refl refl refl refl)

  add_loop-Puts :
      (fuel : ℕ) (b : Bag) (t : Tls) (item head : ℕ)
      → 0 < size
      → head ≤ size
      → (head ≡ size) ⊎ (t.thread_block ≢ 0)
      → size - head + 2 ≤ fuel
      → Puts size b t item (add_loop size fuel b t item head t.thread_block)
  add_loop-Puts zero b t item head pos h k f = absurd (omega arith)
  add_loop-Puts (suc zero) b t item head pos h k f = absurd (omega arith)
  add_loop-Puts (suc (suc fuel)) b t item head pos h k f = elim (ℕ_discrete head size) [
    | yes e ↦ rw e (add_loop-Puts_new fuel b t item pos)
    | no more ↦ elim (ℕ_discrete (b.items t.thread_block head) b.sentinel) [
      | yes free ↦ rw (add_loop_free size (suc fuel) b t item head t.thread_block more free) (
          Puts.in_block t.thread_block head refl (ground arith) (omega arith) free refl refl refl
            refl refl refl)
      | no taken ↦ rw (add_loop_taken size (suc fuel) b t item head t.thread_block more taken) (
          add_loop-Puts (suc fuel) b t item (head + 1) pos (omega arith) (inr (ground arith))
            (omega arith))
    ]
  ]

  -- `add` returns, whatever the slots hold: the item goes into a slot of the thread's block that held
  -- the sentinel, or into a new block at the front of the thread's list, and no other slot of an
  -- allocated block changes. Blocks must have a slot, the thread's position must lie in its
  -- block, and the fuel must allow a look at each slot and one new block.
  pub add-Puts :
      (fuel : ℕ) (b : Bag) (t : Tls) (item : ℕ)
      → 0 < size
      → t.thread_head ≤ size
      → (t.thread_head ≡ size) ⊎ (t.thread_block ≢ 0)
      → size + 2 ≤ fuel
      → Puts size b t item (add size fuel b t item)
  unfolding add
  add-Puts fuel b t item pos h k f = add_loop-Puts fuel b t item t.thread_head pos h k (omega arith)

add_loop_diverges :
    (fuel : ℕ) (b : Bag) (t : Tls) (item block : ℕ) → add_loop 0 fuel b t item 0 block ≡ none
unfolding add_loop
add_loop_diverges zero b t item block = refl
add_loop_diverges (suc fuel) b t item block =
    add_loop_full 0 fuel b t item block ∙ add_loop_diverges fuel _ _ item (b.used + 1)

-- With blocks of no slots, which an item larger than a cache line makes, `add` does not return
-- within any fuel.
pub add_diverges :
    (fuel : ℕ) (b : Bag) (t : Tls) (item : ℕ) → t.thread_head ≡ 0 → add 0 fuel b t item ≡ none
unfolding add
add_diverges fuel b t item e =
    ap (λ head. add_loop 0 fuel b t item head t.thread_block) e
    ∙ add_loop_diverges fuel b t item t.thread_block
