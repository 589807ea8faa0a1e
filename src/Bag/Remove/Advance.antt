-- ===== src/Bag/Remove/Advance.antt =====
-- NextStealBlock at a block of a list whose predecessor the thread knows, or does not ask for.
use temp_data_structure_benc.Prelude.{
  ℕ, zero, suc, ◌≤◌, ◌≡◌, ◌≢◌, ◌⊎◌, ◌∙◌, inl, inr, refl, sym, ap, true, List, [], ◌∷◌, ◌++◌,
  append_assoc, Array, update, update_self, arith, ◌==◌, ◌||◌, if_elim,
}
use mathlib.Core.Path.{subst}
use native.Mathlib.Decide.{ℕ_discrete}
use temp_data_structure_benc.Prelude.Sort.{contains}
use temp_data_structure_benc.Bag.State.{plain, Tls, Bag}
use temp_data_structure_benc.Bag.Remove.{Found, next_steal_block}
use temp_data_structure_benc.Bag.Remove.Lists.{
  Walks, Walks-next, Simple, Simple-apart, first, cut, contains-middle, contains-append,
}
use temp_data_structure_benc.Bag.Remove.Walk.{next_steal_block_onward, next_steal_block-cut}
use temp_data_structure_benc.Bag.Remove.Ready.{Valid, Clean}
use temp_data_structure_benc.Bag.Remove.Seen.{Onto, Onto-refl}
use temp_data_structure_benc.Bag.Remove.Scan.{at}
use temp_data_structure_benc.Bag.Remove.Cut.{cut-Onto}

-- The thread's predecessor is the last of the blocks before its own, or none.
abbrev pub Behind : ℕ → List ℕ → Type 0
Behind prev xs = (prev ≡ 0) ⊎ ((ws : List ℕ) × (xs ≡ ws ++ (prev ∷ [])))

module _ (size threads enough : ℕ) (t : Tls) where
  -- NextStealBlock, with the fuel `need`, at `block` goes on to the blocks `ys`.
  pub record Advance (index block : ℕ) (ys : List ℕ) (prev : ℕ) (xs : List ℕ) (b : Bag)
      (ls : Array (List ℕ)) : Type 0 where
    pub bag : Bag
    pub lists : Array (List ℕ)
    pub behind : ℕ
    pub passed : List ℕ
    pub need : ℕ
    pub need_le : need ≤ enough
    pub found :
        (walk : ℕ)
        → need ≤ walk
        → next_steal_block walk block b (at size threads enough t index block prev size)
          ≡ Found.block_at (first ys) bag (at size threads enough t index block behind size)
    pub onto : Onto size threads t.thread_id b ls bag lists
    pub here : lists index ≡ passed ++ ys
    pub is_behind : Behind behind passed
    pub old : (n : ℕ) → contains passed n ≡ true → (contains xs n ≡ true) ⊎ (n ≡ block)

  module _ (index block : ℕ) (xs : List ℕ) (prev : ℕ) (b : Bag) (ls : Array (List ℕ))
      (v : Valid b ls) (two : 2 ≤ enough) where
    pub link_of :
        (ws : List ℕ) (n : ℕ) (ys : List ℕ)
        → ls index ≡ ws ++ (n ∷ ys)
        → (n ≢ 0) × (b.next n ≡ plain (first ys))
    link_of ws n ys here =
        Walks-next b.next (b.heads index) ws n ys
          (subst (Walks b.next (b.heads index)) here (v.walks index))

    pub next_on :
        (ys : List ℕ)
        → ls index ≡ xs ++ (block ∷ ys)
        → (prev ≡ 0) ⊎ (ys ≡ [])
        → (walk : ℕ)
        → next_steal_block (suc walk) block b (at size threads enough t index block prev size)
          ≡ Found.block_at (first ys) b (at size threads enough t index block block size)
    next_on ys here ways walk =
        let goal : Found =
          Found.block_at (first ys) b (at size threads enough t index block block size) in
        next_steal_block_onward walk b (at size threads enough t index block prev size) block
          (first ys) (link_of xs block ys here).0 (link_of xs block ys here).1
          (elim ways [ inl z ↦ inl z | inr z ↦ inr (inl (ap first z)) ])
        ∙ if_elim (λ o. o ≡ goal) (block == block || first ys == block) (λ _. refl)
            (λ z. absurd (ground (arith, z)))

    pub passes_on :
        (ys : List ℕ)
        → ls index ≡ xs ++ (block ∷ ys)
        → (prev ≡ 0) ⊎ (ys ≡ [])
        → Advance index block ys prev xs b ls
    passes_on ys here ways = record {
      bag = b;
      lists = ls;
      behind = block;
      passed = xs ++ (block ∷ []);
      need = 2;
      need_le = two;
      found = found;
      onto = Onto-refl size threads t.thread_id b ls v;
      here = here ∙ sym (append_assoc xs (block ∷ []) ys);
      is_behind = inr (xs, refl);
      old = λ n h. elim (contains-append xs (block ∷ []) n h) [
        | inl l ↦ inl l
        | inr r ↦ inr (ground (arith, r))
      ];
    }
      where
        found :
            (walk : ℕ)
            → 2 ≤ walk
            → next_steal_block walk block b (at size threads enough t index block prev size)
              ≡ Found.block_at (first ys) b (at size threads enough t index block block size)
        found zero le = absurd (omega arith)
        found (suc walk) le = next_on ys here ways walk

    cuts_out :
        (q : ℕ) (zs ws : List ℕ)
        → ls index ≡ xs ++ (block ∷ q ∷ zs)
        → prev ≢ 0
        → xs ≡ ws ++ (prev ∷ [])
        → Clean size b block
        → Advance index block (q ∷ zs) prev xs b ls
    cuts_out q zs ws here p_nz e clean = record {
      bag = record b { next = cut b.next prev block q };
      lists = update ls index (ws ++ (prev ∷ q ∷ zs));
      behind = prev;
      passed = xs;
      need = 2;
      need_le = two;
      found = found;
      onto = cut-Onto b ls v index ws prev block (q ∷ zs) here' size threads t.thread_id clean;
      here =
          update_self ls index (ws ++ (prev ∷ q ∷ zs))
          ∙ sym (append_assoc ws (prev ∷ []) (q ∷ zs))
          ∙ ap (λ (l : List ℕ). l ++ (q ∷ zs)) (sym e);
      is_behind = inr (ws, e);
      old = λ n h. inl h;
    }
      where
        here' : ls index ≡ ws ++ (prev ∷ block ∷ q ∷ zs)
        here' =
            here
            ∙ ap (λ (l : List ℕ). l ++ (block ∷ q ∷ zs)) e
            ∙ append_assoc ws (prev ∷ []) (block ∷ q ∷ zs)

        ne : prev ≢ block
        ne same = absurd (
            cc (
              sym (Simple-apart ws prev (block ∷ q ∷ zs) (subst Simple here' (v.simple index)))
              ∙ ap (contains (ws ++ (block ∷ q ∷ zs))) same
              ∙ contains-middle ws block (q ∷ zs)))

        found :
            (walk : ℕ)
            → 2 ≤ walk
            → next_steal_block walk block b (at size threads enough t index block prev size)
              ≡ Found.block_at q
                  (record b { next = cut b.next prev block q })
                  (at size threads enough t index block prev size)
        found zero le = absurd (omega arith)
        found (suc zero) le = absurd (omega arith)
        found (suc (suc walk)) le =
            next_steal_block-cut walk b (at size threads enough t index block prev size) block q
              (link_of xs block (q ∷ zs) here).0 (link_of xs block (q ∷ zs) here).1 p_nz ne
              (link_of (xs ++ (block ∷ [])) q zs
                (here ∙ sym (append_assoc xs (block ∷ []) (q ∷ zs)))).0
              refl (link_of ws prev (block ∷ q ∷ zs) here').1

    pub advance :
        (ys : List ℕ)
        → ls index ≡ xs ++ (block ∷ ys)
        → Behind prev xs
        → (prev ≡ 0) ⊎ Clean size b block
        → Advance index block ys prev xs b ls
    advance [] here k c = passes_on [] here (inr refl)
    advance (q ∷ zs) here (inl z) c = passes_on (q ∷ zs) here (inl z)
    advance (q ∷ zs) here (inr (ws, e)) c = elim (ℕ_discrete prev 0) [
      | yes z ↦ passes_on (q ∷ zs) here (inl z)
      | no nz ↦ elim c [ inl z ↦ absurd (nz z) | inr clean ↦ cuts_out q zs ws here nz e clean ]
    ]
