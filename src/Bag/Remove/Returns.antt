-- ===== src/Bag/Remove/Returns.antt =====
-- `tryRemoveAny` behind `add`: the thread gets its item back.
use temp_data_structure_benc.Prelude.{
  ℕ, suc, ◌+◌, ◌-◌, ◌≤◌, ◌<◌, ◌≡◌, ◌≢◌, sym, ap, ◌∙◌, ◌⊎◌, Option, none, some, Array, arith, update,
  update_self, if_elim, ◌==◌, ◌||◌, ◌&&◌,
}
use temp_data_structure_benc.Bag.State.{Tls, Bag, set_item}
use temp_data_structure_benc.Bag.Blocks.{add}
use temp_data_structure_benc.Bag.Blocks.Add.{Puts, in_block, in_new_block, add-Puts}
use temp_data_structure_benc.Bag.Remove.{Outcome, try_remove_any, remove_own}

-- The call hands out the item that stands in a slot, and leaves the sentinel there.
abbrev pub Gives : ℕ → ℕ → ℕ → ℕ → Option (Bag × Tls) → Type 0
Gives size threads fuel item none = ⊥
Gives size threads fuel item (some (b, t)) =
    (block : ℕ) × (slot : ℕ) × (b.items block slot ≡ item)
    × (try_remove_any size threads fuel b t
        ≡ Outcome.removed item (record b { items = set_item b.items block slot b.sentinel })
            (record t { thread_head = slot }))

module _ (size threads fuel : ℕ) where
  remove_own_top :
      (walk block above item : ℕ) (b : Bag) (t : Tls)
      → block ≢ 0
      → above ≢ 0
      → b.items block (above - 1) ≡ item
      → item ≢ b.sentinel
      → remove_own size threads walk (suc fuel) above block b t
        ≡ Outcome.removed item
            (record b { items = set_item b.items block (above - 1) b.sentinel })
            (record t { thread_head = above - 1 })
  unfolding remove_own
  remove_own_top walk block above item b t nz pos e ne =
      let slot : ℕ = above - 1 in
      let end : ℕ → Outcome = λ x.
        Outcome.removed x (record b { items = set_item b.items block slot b.sentinel })
          (record t { thread_head = slot }) in
      if_elim (λ o. o ≡ end item) (block == 0 || above == 0 && (b.next block).ptr == 0)
        (λ h. absurd (ground (arith, h)))
        (λ _.
          if_elim (λ o. o ≡ end item) (above == 0) (λ h. absurd (ground (arith, h)))
            (λ _.
              if_elim (λ o. o ≡ end item) (b.items block slot == b.sentinel)
                (λ h. absurd (ground (arith, h))) (λ _. ap end e)))

  top_item :
      (slot item : ℕ) (b : Bag) (t : Tls)
      → t.thread_block ≢ 0
      → t.thread_head ≡ slot + 1
      → b.items t.thread_block slot ≡ item
      → item ≢ b.sentinel
      → Gives size threads (suc fuel) item (some (b, t))
  unfolding try_remove_any
  top_item slot item b t nz h e ne =
      let below : t.thread_head - 1 ≡ slot = omega arith in
      let found : b.items t.thread_block (t.thread_head - 1) ≡ item =
        ap (b.items t.thread_block) below ∙ e in
      (
        t.thread_block,
        t.thread_head - 1,
        found,
        remove_own_top (suc fuel) t.thread_block t.thread_head item b t nz (omega arith) found ne,
      )

  Puts-Gives :
      {b : Bag} {t : Tls} {item : ℕ} {r : Option (Bag × Tls)}
      → Puts size b t item r
      → item ≢ b.sentinel
      → Gives size threads (suc fuel) item r
  Puts-Gives {b = b} {t = t} {item = item}
        (in_block {b' = b'} {t' = t'} block slot is_block nz lt free items used same heads next at)
        ne =
      let here : t'.thread_block ≡ t.thread_block = ap (λ (x : Tls). x.thread_block) at in
      top_item slot item b' t' (λ z. nz (is_block ∙ sym here ∙ z))
        (ap (λ (x : Tls). x.thread_head) at)
        (ap (λ k. b'.items k slot) (here ∙ sym is_block)
          ∙ ap (λ (a : Array (Array ℕ)). a block slot) items
          ∙ ap (λ (a : Array ℕ). a slot)
              (update_self b.items block (update (b.items block) slot item))
          ∙ update_self (b.items block) slot item)
        (λ z. ne (z ∙ same))
  Puts-Gives {b = b} {t = t} {item = item}
        (in_new_block {b' = b'} {t' = t'} block is_block pos items used same heads next at) ne =
      let here : t'.thread_block ≡ block = ap (λ (x : Tls). x.thread_block) at in
      let cells : Array (Array ℕ) = update b.items block (λ _. b.sentinel) in
      top_item 0 item b' t' (λ z. absurd (omega (arith, sym here ∙ z, is_block)))
        (ap (λ (x : Tls). x.thread_head) at)
        (ap (λ k. b'.items k 0) here
          ∙ ap (λ (a : Array (Array ℕ)). a block 0) items
          ∙ ap (λ (a : Array ℕ). a 0) (update_self cells block (update (cells block) 0 item))
          ∙ update_self (cells block) 0 item)
        (λ z. ne (z ∙ same))

  -- A thread that adds an item and then calls `tryRemoveAny` gets this item back, and its slot is free
  -- again, whatever else the bag holds and with any fuel from 1 on for the removal. The item must
  -- not be the sentinel, blocks must have a slot, the thread's position must lie in its block, and the
  -- fuel of `add` must allow a look at each slot and one new block.
  pub add-Gives :
      (walk : ℕ) (b : Bag) (t : Tls) (item : ℕ)
      → 0 < size
      → t.thread_head ≤ size
      → (t.thread_head ≡ size) ⊎ (t.thread_block ≢ 0)
      → size + 2 ≤ walk
      → item ≢ b.sentinel
      → Gives size threads (suc fuel) item (add size walk b t item)
  add-Gives walk b t item pos h k enough ne =
      Puts-Gives (add-Puts size walk b t item pos h k enough) ne
