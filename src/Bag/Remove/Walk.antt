-- ===== src/Bag/Remove/Walk.antt =====
-- One round of the loop of NextStealBlock on lists without marks.
use temp_data_structure_benc.Prelude.{
  ℕ, suc, ◌≡◌, ◌≢◌, ◌⊎◌, ◌∙◌, refl, sym, ap, true, false, not, Bool, xor, ◌&&◌, ◌||◌, Array, update,
  update_self, update_ne, arith, ◌==◌, if◌then◌else◌, if_elim,
}
use temp_data_structure_benc.Bag.State.{Link, plain, deleted_link, Tls, Bag, set_next}
use temp_data_structure_benc.Bag.Blocks.{mark1_block}
use temp_data_structure_benc.Bag.Remove.{
  Found, link_eq, notify_next, visit_end, visit_middle, mark_next, follow, next_steal_block,
}
use temp_data_structure_benc.Bag.Remove.Lists.{cut}

module _ (fuel : ℕ) (b : Bag) (t : Tls) where
  pub next_steal_block_null :
      next_steal_block (suc fuel) 0 b t ≡ Found.block_at (b.heads t.steal_index) b t
  unfolding next_steal_block
  next_steal_block_null = refl

  next_steal_block-plain :
      (block q : ℕ)
      → block ≢ 0
      → b.next block ≡ plain q
      → next_steal_block (suc fuel) block b t
        ≡ follow (next_steal_block fuel) block q (
            if t.steal_prev == 0 || q == 0
            then visit_end b t block (plain q)
            else visit_middle b t block (plain q))
  unfolding next_steal_block mark_next
  next_steal_block-plain block q nz e = rw e (ground arith)

  pub next_steal_block_onward :
      (block q : ℕ)
      → block ≢ 0
      → b.next block ≡ plain q
      → (t.steal_prev ≡ 0) ⊎ (q ≡ 0) ⊎ (block ≢ t.steal_block)
      → next_steal_block (suc fuel) block b t ≡ (
          if block == t.steal_block || q == t.steal_block
          then Found.block_at q b (record t { steal_prev = block })
          else next_steal_block fuel q b (record t { steal_prev = block }))
  unfolding visit_end visit_middle follow
  next_steal_block_onward block q nz e ways =
      next_steal_block-plain block q nz e
      ∙ if_elim (λ v. follow (next_steal_block fuel) block q v ≡ goal block q)
          (t.steal_prev == 0 || q == 0) (λ _. refl)
          (λ h.
            if_elim (λ v. follow (next_steal_block fuel) block q v ≡ goal block q)
              (block == t.steal_block) (λ same. absurd (ground (arith, ways, h, same))) (λ _. refl))
    where
      goal : ℕ → ℕ → Found
      goal block q =
          if block == t.steal_block || q == t.steal_block
          then Found.block_at q b (record t { steal_prev = block })
          else next_steal_block fuel q b (record t { steal_prev = block })

  pub next_steal_block_bad :
      (block q : ℕ)
      → block ≢ 0
      → b.next block ≡ plain q
      → t.steal_prev ≢ 0
      → q ≢ 0
      → block ≡ t.steal_block
      → link_eq (b.next t.steal_prev) (plain block) ≡ false
      → next_steal_block (suc fuel) block b t
        ≡ next_steal_block fuel (b.heads t.steal_index) b (record t { steal_prev = 0 })
  unfolding visit_end visit_middle follow
  next_steal_block_bad block q nz e p_nz q_nz here bad =
      next_steal_block-plain block q nz e
      ∙ if_elim (λ v. follow (next_steal_block fuel) block q v ≡ goal) (t.steal_prev == 0 || q == 0)
          (λ h. absurd (ground (arith, h)))
          (λ _.
            if_elim (λ v. follow (next_steal_block fuel) block q v ≡ goal) (block == t.steal_block)
              (λ _.
                if_elim (λ v. follow (next_steal_block fuel) block q v ≡ goal)
                  (link_eq (b.next t.steal_prev) (plain block)) (λ h. absurd (cc (h, bad)))
                  (λ _. refl))
              (λ h. absurd (ground (arith, h))))
    where
      goal : Found
      goal = next_steal_block fuel (b.heads t.steal_index) b (record t { steal_prev = 0 })

  pub next_steal_block_dead :
      (block : ℕ)
      → block ≢ 0
      → b.next block ≡ deleted_link
      → b.heads t.steal_index ≢ block
      → next_steal_block (suc fuel) block b t
        ≡ next_steal_block fuel (b.heads t.steal_index) b (record t { steal_prev = 0 })
  unfolding next_steal_block mark_next visit_end notify_next follow
  next_steal_block_dead block nz e other = rw e (
      if_elim (λ x. x ≡ goal) (block == 0) (λ z. absurd (ground (arith, z)))
        (λ _.
          if_elim (λ v. follow (next_steal_block fuel) block 0 v ≡ goal) (t.steal_prev == 0 || true)
            (λ _.
              if_elim (λ v. follow (next_steal_block fuel) block 0 v ≡ goal)
                (b.heads t.steal_index == block) (λ z. absurd (ground (arith, z))) (λ _. refl))
            (λ z. absurd (ground (arith, z)))))
    where
      goal : Found
      goal = next_steal_block fuel (b.heads t.steal_index) b (record t { steal_prev = 0 })

link_self : (n : ℕ) (v w : Bool) → (n == n && not (xor v v) && not (xor w w)) ≡ true
unfolding xor
link_self n false false = ground arith
link_self n false true = ground arith
link_self n true false = ground arith
link_self n true true = ground arith

abbrev to_cut : Bag → ℕ → ℕ → Bag
to_cut b p block =
    mark1_block (set_next b p (record { ptr = block; mark1 = false; mark2 = true })) block

to_cut_lem :
    (b : Bag) (p block q : ℕ)
    → b.next block ≡ plain q
    → q ≢ 0
    → p ≢ block
    → to_cut b p block ≡ record b {
      next =
          update
            (update b.next p (record { ptr = block; mark1 = false; mark2 = true }))
            block
            (record { ptr = q; mark1 = true; mark2 = false });
    }
unfolding mark1_block
to_cut_lem b p block q e nz ne =
    let at_block : update b.next p (record { ptr = block; mark1 = false; mark2 = true }) block
        ≡ plain q =
      update_ne b.next (record { ptr = block; mark1 = false; mark2 = true }) ne ∙ e in
    rw at_block
      (if_elim (λ x. x ≡ goal) (q == 0 || false) (λ z. absurd (ground (arith, z))) (λ _. refl))
  where
    goal : Bag
    goal = record b {
      next =
          update (update b.next p (record { ptr = block; mark1 = false; mark2 = true })) block
            (record { ptr = q; mark1 = true; mark2 = false });
    }

module _ (next : Array Link) (p block q : ℕ) (l m : Link) where
  stores_twice :
      (k : ℕ)
      → update (update (update (update next p l) block m) p (plain q)) block deleted_link k
        ≡ cut next p block q k
  stores_twice k = ground arith

module _ (fuel : ℕ) (b : Bag) (t : Tls) where
  next_steal_block_mark :
      (block q : ℕ)
      → block ≢ 0
      → b.next block ≡ plain q
      → t.steal_prev ≢ 0
      → q ≢ 0
      → block ≡ t.steal_block
      → link_eq (b.next t.steal_prev) (plain block) ≡ true
      → next_steal_block (suc fuel) block b t
        ≡ next_steal_block fuel block (to_cut b t.steal_prev block) t
  unfolding visit_end visit_middle follow
  next_steal_block_mark block q nz e p_nz q_nz here good =
      next_steal_block-plain fuel b t block q nz e
      ∙ if_elim (λ v. follow (next_steal_block fuel) block q v ≡ goal) (t.steal_prev == 0 || q == 0)
          (λ h. absurd (ground (arith, h)))
          (λ _.
            if_elim (λ v. follow (next_steal_block fuel) block q v ≡ goal) (block == t.steal_block)
              (λ _.
                if_elim (λ v. follow (next_steal_block fuel) block q v ≡ goal)
                  (link_eq (b.next t.steal_prev) (plain block)) (λ _. refl)
                  (λ h. absurd (cc (h, good))))
              (λ h. absurd (ground (arith, h))))
    where
      goal : Found
      goal = next_steal_block fuel block (to_cut b t.steal_prev block) t

  next_steal_block_delete :
      (block q : ℕ)
      → block ≢ 0
      → b.next block ≡ record { ptr = q; mark1 = true; mark2 = false }
      → t.steal_prev ≢ 0
      → q ≢ 0
      → block ≡ t.steal_block
      → b.next t.steal_prev ≡ record { ptr = block; mark1 = false; mark2 = true }
      → next_steal_block (suc fuel) block b t
        ≡ Found.block_at q (set_next (set_next b t.steal_prev (plain q)) block deleted_link) t
  unfolding next_steal_block mark_next visit_middle follow
  next_steal_block_delete block q nz e p_nz q_nz here before = rw e (
      rw before (
        if_elim (λ x. x ≡ goal) (block == 0) (λ z. absurd (ground (arith, z)))
          (λ _.
            if_elim (λ v. follow (next_steal_block fuel) block q v ≡ goal)
              (t.steal_prev == 0 || q == 0) (λ z. absurd (ground (arith, z)))
              (λ _.
                if_elim (λ v. follow (next_steal_block fuel) block q v ≡ goal)
                  (block == block && not (xor false false) && not (xor true true))
                  (λ _.
                    if_elim (λ v. v ≡ goal) (block == t.steal_block || q == t.steal_block)
                      (λ _. refl) (λ z. absurd (ground (arith, here, z))))
                  (λ z. absurd (cc (z, link_self block false true)))))))
    where
      goal : Found
      goal = Found.block_at q (set_next (set_next b t.steal_prev (plain q)) block deleted_link) t

module _ (fuel : ℕ) (b : Bag) (t : Tls) where
  pub next_steal_block-cut :
      (block q : ℕ)
      → block ≢ 0
      → b.next block ≡ plain q
      → t.steal_prev ≢ 0
      → t.steal_prev ≢ block
      → q ≢ 0
      → block ≡ t.steal_block
      → b.next t.steal_prev ≡ plain block
      → next_steal_block (suc (suc fuel)) block b t
        ≡ Found.block_at q (record b { next = cut b.next t.steal_prev block q }) t
  next_steal_block-cut block q nz e p_nz ne q_nz here before =
      let l : Link = record { ptr = block; mark1 = false; mark2 = true } in
      let m : Link = record { ptr = q; mark1 = true; mark2 = false } in
      let p : ℕ = t.steal_prev in
      next_steal_block_mark (suc fuel) b t block q nz e p_nz q_nz here
        (rw before (link_self block false false))
      ∙ ap (λ (x : Bag). next_steal_block (suc fuel) block x t) (to_cut_lem b p block q e q_nz ne)
      ∙ next_steal_block_delete fuel (record b { next = update (update b.next p l) block m }) t
          block q nz (update_self (update b.next p l) block m) p_nz q_nz here
          (update_ne (update b.next p l) m (λ z. ne (sym z)) ∙ update_self b.next p l)
      ∙ ap (λ (x : Array Link). Found.block_at q (record b { next = x }) t)
          (λ i k. stores_twice b.next p block q l m k i)
