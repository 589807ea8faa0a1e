-- ===== src/Bag/Blocks/Linked.antt =====
-- The addresses that a bag of sbag_hrc.h stores are NULL or those of allocated blocks.
use temp_data_structure_benc.Prelude.{
  ℕ, zero, suc, ◌+◌, ◌≤◌, ◌≡◌, ◌≢◌, Option, some, Array, update, update_ne, arith, ◌==◌, ◌||◌,
  if_elim, sym, ◌∙◌, true,
}
use mathlib.Core.Path.{subst}
use native.Mathlib.Decide.{ℕ_discrete}
use temp_data_structure_benc.Bag.State.{Link, plain, Tls, Bag, set_item, set_next}
use temp_data_structure_benc.Bag.Blocks.{
  notify_all, notify_start, mark1_block, new_block, add, add_loop,
}

-- Each head of a list, and each link of an allocated block, is NULL or an allocated block.
pub record IsLinked (b : Bag) : Type 0 where
  pub heads : (i : ℕ) → b.heads i ≤ b.used
  pub links : (n : ℕ) → n ≢ 0 → n ≤ b.used → (b.next n).ptr ≤ b.used

update_within :
    {used : ℕ} (a : Array ℕ) (at v : ℕ)
    → v ≤ used
    → ((i : ℕ) → a i ≤ used)
    → (i : ℕ) → update a at v i ≤ used
update_within {used} a at v le h i = if_elim (λ k. k ≤ used) (at == i) (λ _. le) (λ _. h i)

link_within :
    {used : ℕ} (a : Array Link) (at : ℕ) (l : Link)
    → l.ptr ≤ used
    → ((n : ℕ) → n ≢ 0 → n ≤ used → (a n).ptr ≤ used)
    → (n : ℕ) → n ≢ 0
    → n ≤ used
    → (update a at l n).ptr ≤ used
link_within {used} a at l le h n nz within =
    if_elim (λ (k : Link). k.ptr ≤ used) (at == n) (λ _. le) (λ _. h n nz within)

module _ {b : Bag} (l : IsLinked b) where
  pub set_head-IsLinked :
      (i block : ℕ) → block ≤ b.used → IsLinked (record b { heads = update b.heads i block })
  set_head-IsLinked i block le = record {
    heads = update_within b.heads i block le l.heads;
    links = l.links;
  }

  pub set_next-IsLinked :
      (block : ℕ) (link : Link) → link.ptr ≤ b.used → IsLinked (set_next b block link)
  set_next-IsLinked block link le = record {
    heads = l.heads;
    links = link_within b.next block link le l.links;
  }

  pub notify_all-IsLinked : (block : ℕ) → IsLinked (notify_all b block)
  unfolding notify_all
  notify_all-IsLinked block = record { heads = l.heads; links = l.links }

  pub notify_start-IsLinked : (block id : ℕ) → IsLinked (notify_start b block id)
  unfolding notify_start
  notify_start-IsLinked block id = record { heads = l.heads; links = l.links }

  pub mark1_block-IsLinked :
      (block : ℕ) → block ≢ 0 → block ≤ b.used → IsLinked (mark1_block b block)
  unfolding mark1_block
  mark1_block-IsLinked block nz le =
      if_elim IsLinked ((b.next block).ptr == 0 || (b.next block).mark1) (λ _. l)
        (λ _.
          set_next-IsLinked block (record (b.next block) { mark1 = true }) (l.links block nz le))

-- A new block, in front of one that is there.
fresh-IsLinked :
    {b : Bag} {block : ℕ} (i : ℕ) (items notify : Array (Array ℕ))
    → IsLinked b
    → block ≤ b.used
    → let fresh = b.used + 1 in
      IsLinked (record b {
        heads = update b.heads i fresh;
        next = update (update b.next fresh (plain 0)) fresh (plain block);
        items = items;
        notify = notify;
        used = fresh;
      })
fresh-IsLinked {b} {block} i items notify l le =
    let fresh = b.used + 1 in
    record {
      heads = update_within b.heads i fresh (omega arith) (λ j. omega (arith, l.heads j));
      links = λ n nz within. elim (ℕ_discrete fresh n) [
        | yes e ↦
            if_elim (λ (k : Link). k.ptr ≤ fresh) (fresh == n) (λ _. omega (arith, le))
              (λ ne. absurd (ground (arith, ne, e)))
        | no ne ↦
            subst (λ (k : Link). k.ptr ≤ fresh)
              (sym (
                update_ne (update b.next fresh (plain 0)) (plain block) ne
                ∙ update_ne b.next (plain 0) ne))
              (omega (arith, l.links n nz (omega (arith, ne, within))))
      ];
    }

module _ (size : ℕ) where
  add_loop-IsLinked :
      (fuel : ℕ) (b : Bag) (t : Tls) (item head block : ℕ) (c : Bag) (t' : Tls)
      → IsLinked b
      → block ≤ b.used
      → add_loop size fuel b t item head block ≡ some (c, t')
      → IsLinked c
  unfolding add_loop new_block notify_all
  add_loop-IsLinked zero b t item head block c t' l le e = absurd (cc (e))
  add_loop-IsLinked (suc fuel) b t item head block c t' l le e =
      let Goal : Option (Bag × Tls) → Type 0 = λ o. o ≡ some (c, t') → IsLinked c in
      if_elim Goal (head == size)
        (λ _ f.
          add_loop-IsLinked fuel _ (record t { thread_block = b.used + 1 }) item 0 (b.used + 1) c t'
            (fresh-IsLinked t.thread_id _ _ l le) (omega arith) f)
        (λ _.
          if_elim Goal (b.items block head == b.sentinel)
            (λ _ f.
              let same : (
                record b {
                  items = set_item b.items block head item;
                  notify = update b.notify block (λ _. 0);
                },
                record t { thread_head = head + 1 },
              )
                  ≡ (c, t') =
                cc (f) in
              subst (λ (p : Bag × Tls). IsLinked p.0) same
                (record { heads = l.heads; links = l.links }))
            (λ _ f. add_loop-IsLinked fuel b t item (head + 1) block c t' l le f))
        e

  pub add-IsLinked :
      (fuel : ℕ) (b : Bag) (t : Tls) (item : ℕ) (c : Bag) (t' : Tls)
      → IsLinked b
      → t.thread_block ≤ b.used
      → add size fuel b t item ≡ some (c, t')
      → IsLinked c
  unfolding add
  add-IsLinked fuel b t item c t' l le e =
      add_loop-IsLinked fuel b t item t.thread_head t.thread_block c t' l le e
