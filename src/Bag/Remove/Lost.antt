-- ===== src/Bag/Remove/Lost.antt =====
-- A thread whose predecessor is no longer the one of its block: NextStealBlock goes back to the head.
use temp_data_structure_benc.Prelude.{
  ℕ, zero, suc, ◌+◌, ◌≤◌, ◌<◌, ◌≡◌, ◌≢◌, ◌⊎◌, ◌∙◌, inl, inr, refl, sym, ap, true, false, List, [],
  ◌∷◌, ◌++◌, append_assoc, Array, arith, length, length-append,
}
use mathlib.Core.Path.{subst}
use temp_data_structure_benc.Prelude.Sort.{contains}
use temp_data_structure_benc.Bag.State.{plain, Tls, Bag}
use temp_data_structure_benc.Bag.Remove.{Found, link_eq, next_steal_block}
use temp_data_structure_benc.Bag.Remove.Lists.{
  Walks, Walks-first, Simple, Simple-apart, first, split, contains-middle,
}
use temp_data_structure_benc.Bag.Remove.Walk.{next_steal_block_bad}
use temp_data_structure_benc.Bag.Remove.Ready.{Valid, Mine}
use temp_data_structure_benc.Bag.Remove.Seen.{Onto-refl}
use temp_data_structure_benc.Bag.Remove.Scan.{Goes, at, rounds_from}
use temp_data_structure_benc.Bag.Remove.Advance.{Advance, passes_on, next_on, link_of}
use temp_data_structure_benc.Bag.Remove.Pass.{Rest, pass}
use temp_data_structure_benc.Bag.Remove.Rewalk.{walk_to}

snoc_view : (xs : List ℕ) → (xs ≡ []) ⊎ ((ws : List ℕ) × (p : ℕ) × (xs ≡ ws ++ (p ∷ [])))
snoc_view [] = inl refl
snoc_view (x ∷ xs) = elim (snoc_view xs) [
  | inl e ↦ inr ([], x, ap (◌∷◌ x) e)
  | inr (ws, p, e) ↦ inr (x ∷ ws, p, ap (◌∷◌ x) e)
]

not_left : (xs ys : List ℕ) (n : ℕ) → contains (xs ++ ys) n ≡ false → contains xs n ≡ false
not_left [] ys n h = refl
not_left (x ∷ xs) ys n h = ground (arith, h, not_left xs ys n)

module _ (size threads enough : ℕ) (t : Tls) (pos : 0 < size) (two : 2 ≤ enough) (index : ℕ)
    (index_lt : index < threads) (b : Bag) (ls : Array (List ℕ)) (v : Valid b ls)
    (own : Mine size b t) (room : length (ls index) + 2 ≤ enough)
    (rest : Rest size threads enough t 0 0 index b ls) where
  pub go_on :
      (ys : List ℕ) (block prev : ℕ) (xs : List ℕ)
      → block ≢ 0
      → Advance size threads enough t index block ys prev xs b ls
      → Goes size threads enough t b ls
          (rounds_from size threads enough t 0 0 b (at size threads enough t index block prev size))
  go_on ys block prev xs nz a =
      pass size threads enough t pos two 0 0 index (omega (arith, index_lt)) index_lt ys block prev
        xs b ls nz own a (λ z. absurd (omega (arith, z))) (inl (omega arith)) rest

  module _ (block prev : ℕ) (p_nz : prev ≢ 0)
      (bad : link_eq (b.next prev) (plain block) ≡ false) where
    restarts :
        (q walk : ℕ)
        → block ≢ 0
        → b.next block ≡ plain q
        → q ≢ 0
        → next_steal_block (suc walk) block b (at size threads enough t index block prev size)
          ≡ next_steal_block walk (b.heads index) b (at size threads enough t index block 0 size)
    restarts q walk nz e q_nz =
        next_steal_block_bad walk b (at size threads enough t index block prev size) block q nz e
          p_nz q_nz refl bad

    from_head :
        (q : ℕ) (zs : List ℕ)
        → ls index ≡ block ∷ q ∷ zs
        → Advance size threads enough t index block (q ∷ zs) prev [] b ls
    from_head q zs here = record {
      bag = b;
      lists = ls;
      behind = block;
      passed = block ∷ [];
      need = 2;
      need_le = two;
      found = found;
      onto = Onto-refl size threads t.thread_id b ls v;
      here = here;
      is_behind = inr ([], refl);
      old = λ n h. inr (ground (arith, h));
    }
      where
        here' : ls index ≡ [] ++ (block ∷ q ∷ zs)
        here' = here

        at_block : (block ≢ 0) × (b.next block ≡ plain q)
        at_block = link_of size threads enough t index block [] 0 b ls v two [] block (q ∷ zs) here'

        is_head : b.heads index ≡ block
        is_head = Walks-first b.next (b.heads index) (ls index) (v.walks index) ∙ ap first here

        q_nz : q ≢ 0
        q_nz = (link_of size threads enough t index block [] 0 b ls v two (block ∷ []) q zs here).0

        found :
            (walk : ℕ)
            → 2 ≤ walk
            → next_steal_block walk block b (at size threads enough t index block prev size)
              ≡ Found.block_at q b (at size threads enough t index block block size)
        found zero le = absurd (omega arith)
        found (suc zero) le = absurd (omega arith)
        found (suc (suc walk)) le =
            restarts q (suc walk) at_block.0 at_block.1 q_nz
            ∙ ap
                (λ h. next_steal_block (suc walk) h b (at size threads enough t index block 0 size))
                is_head
            ∙ next_on size threads enough t index block [] 0 b ls v two (q ∷ zs) here' (inl refl)
                walk

    from_middle :
        (q : ℕ) (zs ws : List ℕ) (p : ℕ)
        → ls index ≡ (ws ++ (p ∷ [])) ++ (block ∷ q ∷ zs)
        → Advance size threads enough t index block (block ∷ q ∷ zs) prev (ws ++ (p ∷ [])) b ls
    from_middle q zs ws p here = record {
      bag = b;
      lists = ls;
      behind = p;
      passed = ws ++ (p ∷ []);
      need = length ws + 2;
      need_le = omega (arith, room, ap length here', length-append ws (p ∷ block ∷ q ∷ zs));
      found = found;
      onto = Onto-refl size threads t.thread_id b ls v;
      here = here;
      is_behind = inr (ws, refl);
      old = λ n h. inl h;
    }
      where
        here' : ls index ≡ ws ++ (p ∷ block ∷ q ∷ zs)
        here' = here ∙ append_assoc ws (p ∷ []) (block ∷ q ∷ zs)

        xs : List ℕ
        xs = ws ++ (p ∷ [])

        at_block : (block ≢ 0) × (b.next block ≡ plain q)
        at_block = link_of size threads enough t index block xs 0 b ls v two xs block (q ∷ zs) here

        q_nz : q ≢ 0
        q_nz =
            (link_of size threads enough t index block xs 0 b ls v two (xs ++ (block ∷ [])) q zs
              (here ∙ sym (append_assoc xs (block ∷ []) (q ∷ zs)))).0

        outside : contains xs block ≡ false
        outside =
            not_left xs (q ∷ zs) block
              (Simple-apart xs block (q ∷ zs) (subst Simple here (v.simple index)))

        ne : p ≢ block
        ne e = absurd (
            cc (
              sym outside
              ∙ ap (λ k. contains (ws ++ (k ∷ [])) block) e
              ∙ contains-middle ws block []))

        found :
            (walk : ℕ)
            → length ws + 2 ≤ walk
            → next_steal_block walk block b (at size threads enough t index block prev size)
              ≡ Found.block_at block b (at size threads enough t index block p size)
        found zero le = absurd (omega arith)
        found (suc walk) le =
            restarts q walk at_block.0 at_block.1 q_nz
            ∙ walk_to size threads enough t index block b at_block.0 ws p (q ∷ zs) (b.heads index)
                walk 0 (subst (Walks b.next (b.heads index)) here' (v.walks index))
                (not_left ws (p ∷ []) block outside) ne (omega arith)

    pub lost :
        contains (ls index) block ≡ true
        → Goes size threads enough t b ls (
            rounds_from size threads enough t 0 0 b
              (at size threads enough t index block prev size))
    lost has = let (xs, ys, here) = split (ls index) block has in place xs ys here
      where
        place :
            (xs ys : List ℕ)
            → ls index ≡ xs ++ (block ∷ ys)
            → Goes size threads enough t b ls (
                rounds_from size threads enough t 0 0 b
                  (at size threads enough t index block prev size))
        place xs [] here =
            go_on [] block prev xs
              (link_of size threads enough t index block xs 0 b ls v two xs block [] here).0
              (passes_on size threads enough t index block xs prev b ls v two [] here (inr refl))
        place xs (q ∷ zs) here =
            let nz : block ≢ 0 =
              (link_of size threads enough t index block xs 0 b ls v two xs block (q ∷ zs)
                here).0 in
            elim (snoc_view xs) [
              | inl e ↦
                  go_on (q ∷ zs) block prev [] nz
                    (from_head q zs (here ∙ ap (λ (l : List ℕ). l ++ (block ∷ q ∷ zs)) e))
              | inr (ws, p, e) ↦
                  go_on (block ∷ q ∷ zs) block prev (ws ++ (p ∷ [])) nz
                    (from_middle q zs ws p (here ∙ ap (λ (l : List ℕ). l ++ (block ∷ q ∷ zs)) e))
            ]
