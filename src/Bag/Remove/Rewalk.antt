-- ===== src/Bag/Remove/Rewalk.antt =====
-- NextStealBlock from the head of a list on, after it has lost its place.
use temp_data_structure_benc.Prelude.{
  ℕ, zero, suc, ◌+◌, ◌≤◌, ◌≡◌, ◌≢◌, ◌∙◌, inr, refl, sym, ap, false, List, [], ◌∷◌, ◌++◌, arith,
  ◌==◌, ◌||◌, if_elim, length,
}
use temp_data_structure_benc.Prelude.Sort.{contains}
use temp_data_structure_benc.Bag.State.{plain, Tls, Bag}
use temp_data_structure_benc.Bag.Remove.{Found, next_steal_block}
use temp_data_structure_benc.Bag.Remove.Lists.{Walks, Walks-first, Walks-next, first}
use temp_data_structure_benc.Bag.Remove.Walk.{next_steal_block_null, next_steal_block_onward}
use temp_data_structure_benc.Bag.Remove.Scan.{at}

abbrev pub last_of : ℕ → List ℕ → ℕ
last_of p [] = p
last_of p (n ∷ ns) = last_of n ns

module _ (size threads enough : ℕ) (t : Tls) (index block : ℕ) (b : Bag) (nz : block ≢ 0) where
  abbrev seeking : ℕ → Tls
  seeking prev = at size threads enough t index block prev size

  pub first_ne : (ns : List ℕ) → contains ns block ≡ false → first ns ≢ block
  first_ne [] h = λ e. nz (sym e)
  first_ne (n ∷ ns) h = ground (arith, h)

  first_append :
      (ns : List ℕ) (p : ℕ) (ys : List ℕ)
      → contains ns block ≡ false
      → p ≢ block
      → first (ns ++ (p ∷ ys)) ≢ block
  first_append [] p ys h ne = ne
  first_append (n ∷ ns) p ys h ne = ground (arith, h)

  -- One block further, where neither this one nor the next is the one that is sought.
  further :
      (walk n q prev : ℕ)
      → n ≢ 0
      → b.next n ≡ plain q
      → n ≢ block
      → q ≢ block
      → next_steal_block (suc walk) n b (seeking prev) ≡ next_steal_block walk q b (seeking n)
  further walk n q prev n_nz e n_ne q_ne =
      next_steal_block_onward walk b (seeking prev) n q n_nz e (inr (inr n_ne))
      ∙ if_elim (λ o. o ≡ next_steal_block walk q b (seeking n)) (n == block || q == block)
          (λ z. absurd (ground (arith, z))) (λ _. refl)

  -- The block is in the list: its predecessor is found.
  pub walk_to :
      (zs : List ℕ) (p : ℕ) (ys : List ℕ) (h walk prev : ℕ)
      → Walks b.next h (zs ++ (p ∷ block ∷ ys))
      → contains zs block ≡ false
      → p ≢ block
      → length zs + 1 ≤ walk
      → next_steal_block walk h b (seeking prev) ≡ Found.block_at block b (seeking p)
  walk_to zs p ys h zero prev w out ne le = absurd (omega arith)
  walk_to [] p ys h (suc walk) prev w out ne le =
      let goal : Found = Found.block_at block b (seeking p) in
      ap (λ k. next_steal_block (suc walk) k b (seeking prev)) w.0
      ∙ next_steal_block_onward walk b (seeking prev) p block w.1
          (Walks-next b.next h [] p (block ∷ ys) w).1 (inr (inr ne))
      ∙ if_elim (λ o. o ≡ goal) (p == block || block == block) (λ _. refl)
          (λ z. absurd (ground (arith, z)))
  walk_to (z ∷ zs) p ys h (suc walk) prev w out ne le =
      let q : ℕ = (b.next z).ptr in
      let to : q ≡ first (zs ++ (p ∷ block ∷ ys)) =
        Walks-first b.next q (zs ++ (p ∷ block ∷ ys)) w.3 in
      ap (λ k. next_steal_block (suc walk) k b (seeking prev)) w.0
      ∙ further walk z q prev w.1 w.2 (ground (arith, out))
          (λ e. first_append zs p (block ∷ ys) (ground (arith, out)) ne (sym to ∙ e))
      ∙ walk_to zs p ys q walk z w.3 (ground (arith, out)) ne (omega arith)

  -- It is not: the walk ends behind the last block.
  pub walk_past :
      (zs : List ℕ) (h walk prev : ℕ)
      → Walks b.next h zs
      → contains zs block ≡ false
      → length zs + 1 ≤ walk
      → next_steal_block walk h b (seeking prev)
        ≡ Found.block_at (b.heads index) b (seeking (last_of prev zs))
  walk_past zs h zero prev w out le = absurd (omega arith)
  walk_past [] h (suc walk) prev w out le =
      ap (λ k. next_steal_block (suc walk) k b (seeking prev)) w
      ∙ next_steal_block_null walk b (seeking prev)
  walk_past (z ∷ zs) h (suc walk) prev w out le =
      let q : ℕ = (b.next z).ptr in
      ap (λ k. next_steal_block (suc walk) k b (seeking prev)) w.0
      ∙ further walk z q prev w.1 w.2 (ground (arith, out))
          (λ e. first_ne zs (ground (arith, out)) (sym (Walks-first b.next q zs w.3) ∙ e))
      ∙ walk_past zs q walk z w.3 (ground (arith, out)) (omega arith)
