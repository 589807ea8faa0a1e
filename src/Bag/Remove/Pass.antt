-- ===== src/Bag/Remove/Pass.antt =====
-- The calls of TryStealBlock that go through one list of blocks, and the end of that list.
use temp_data_structure_benc.Prelude.{
  ℕ, ◌+◌, ◌%◌, ◌≤◌, ◌<◌, ◌≡◌, ◌≢◌, ◌⊎◌, ◌∙◌, inl, inr, refl, sym, ap, true, List, [], ◌∷◌, ◌++◌,
  append-nil, append_assoc, Array, arith,
}
use mathlib.Core.Path.{subst}
use temp_data_structure_benc.Prelude.Sort.{contains}
use temp_data_structure_benc.Bag.State.{Tls, Bag}
use temp_data_structure_benc.Bag.Remove.{Outcome, steal_from, steal_next}
use temp_data_structure_benc.Bag.Remove.Lists.{first, contains-middle, Walks-first}
use temp_data_structure_benc.Bag.Remove.Ready.{Valid, IsRef, Clean, Mine}
use temp_data_structure_benc.Bag.Remove.Seen.{
  Marked, Onto, Onto-refl, Onto-trans, noted, noted-Onto, noted-Marked,
}
use temp_data_structure_benc.Bag.Remove.Scan.{
  Ends, Goes, Leaves-Goes, Goes-call, at, rounds_from, after, scan_block, try_steal_block_first,
  try_steal_block_next,
}
use temp_data_structure_benc.Bag.Remove.Advance.{Advance, advance, link_of}

module _ (size threads enough : ℕ) (t : Tls) where
  pub Goes-same :
      {b : Bag} {ls : Array (List ℕ)} {f g : ℕ → ℕ → Outcome}
      → ((walk fuel : ℕ) → enough ≤ walk → f walk fuel ≡ g walk fuel)
      → Goes size threads enough t b ls g
      → Goes size threads enough t b ls f
  Goes-same {b = b} {ls = ls} e (n, h) = (
    n,
    λ walk fuel k m.
        subst (Ends size threads t.thread_id b ls) (sym (e walk fuel k)) (h walk fuel k m),
  )

  -- The block holds no item, and the thread has set its bit on it.
  abbrev pub Seen : Bag → ℕ → Type 0
  Seen b n = Clean size b n × Marked size threads t.thread_id b n

  -- No block of a list can report an item as added since: the round does not ask, or the bits are set.
  abbrev pub Calm : ℕ → Bag → List ℕ → Type 0
  Calm round b ns =
      (round ≤ 1) ⊎ ((n : ℕ) → contains ns n ≡ true → Marked size threads t.thread_id b n)

  module _ {b c : Bag} {ls ls' : Array (List ℕ)}
      (onto : Onto size threads t.thread_id b ls c ls') where
    pub Seen-Onto : (n : ℕ) → Seen b n → Seen c n
    Seen-Onto n s = (onto.clean n s.0, onto.marked n s.1)

    pub Calm-Onto : (round index : ℕ) → Calm round b (ls index) → Calm round c (ls' index)
    Calm-Onto round index (inl le) = inl le
    Calm-Onto round index (inr m) = inr (λ n has. onto.marked n (m n (onto.sub index n has)))

  -- What is to be shown of the rest of the call, from the end of a list on.
  abbrev pub Rest : ℕ → ℕ → ℕ → Bag → Array (List ℕ) → Type 0
  Rest round i index b ls =
      (c : Bag) (ls' : Array (List ℕ))
      → Onto size threads t.thread_id b ls c ls'
      → (round ≡ 1 → (n : ℕ) → contains (ls' index) n ≡ true → Seen c n)
      → Goes size threads enough t c ls' (
          after size threads enough t round i
            (λ _. Outcome.empty c (at size threads enough t ((index + 1) % threads) 0 0 0)))

  module _ (pos : 0 < size) (two : 2 ≤ enough) (round i index : ℕ) (lt : i < threads)
      (index_lt : index < threads) where
    pub steal_none :
        (b : Bag) (block prev head : ℕ)
        → steal_from size threads round b (at size threads enough t index block prev head) 0 0
          ≡ Outcome.empty b (at size threads enough t ((index + 1) % threads) 0 0 0)
    unfolding steal_from
    steal_none b block prev head = refl

    to_next :
        (ys : List ℕ) (block prev : ℕ) (xs : List ℕ) (b : Bag) (ls : Array (List ℕ))
        → block ≢ 0
        → (a : Advance size threads enough t index block ys prev xs b ls)
        → Goes size threads enough t a.bag a.lists (
            after size threads enough t round i (λ _.
              steal_from size threads round a.bag
                (at size threads enough t index (first ys) a.behind size)
                (first ys)
                0))
        → Goes size threads enough t b ls (
            rounds_from size threads enough t round i b
              (at size threads enough t index block prev size))
    unfolding steal_next
    to_next ys block prev xs b ls nz a go =
        Goes-call size threads enough t round i b ls
          (at size threads enough t index block prev size)
          (Goes-same
            (λ walk fuel le.
              ap (λ o. after size threads enough t round i (λ _. o) walk fuel)
                (try_steal_block_next size threads enough t round walk b index block prev nz
                  ∙ ap (steal_next size threads round) (a.found walk (omega (arith, a.need_le)))))
            (Leaves-Goes size threads enough t a.onto.leaves go))

    behind-IsRef :
        {block : ℕ} {ys : List ℕ} {prev : ℕ} {xs : List ℕ} {b : Bag} {ls : Array (List ℕ)}
        → (a : Advance size threads enough t index block ys prev xs b ls)
        → IsRef a.bag (a.lists index) a.behind
    behind-IsRef {ys = ys} a = elim a.is_behind [
      | inl z ↦ inl z
      | inr (ws, e) ↦ inr (
          inl (
            subst (λ l. contains l a.behind ≡ true)
              (sym (a.here ∙ ap (λ (l : List ℕ). l ++ ys) e ∙ append_assoc ws (a.behind ∷ []) ys))
              (contains-middle ws a.behind ys)))
    ]

    -- From a block on that has been looked through, with what NextStealBlock does there.
    pub pass :
        (ys : List ℕ) (block prev : ℕ) (xs : List ℕ) (b : Bag) (ls : Array (List ℕ))
        → block ≢ 0
        → Mine size b t
        → Advance size threads enough t index block ys prev xs b ls
        → (round ≡ 1 → (n : ℕ) → (contains xs n ≡ true) ⊎ (n ≡ block) → Seen b n)
        → Calm round b (ls index)
        → Rest round i index b ls
        → Goes size threads enough t b ls (
            rounds_from size threads enough t round i b
              (at size threads enough t index block prev size))
    pass [] block prev xs b ls nz own a seen calm rest = to_next [] block prev xs b ls nz a (
        subst
          (λ o.
            Goes size threads enough t a.bag a.lists (after size threads enough t round i (λ _. o)))
          (sym (steal_none a.bag 0 a.behind size))
          (rest a.bag a.lists a.onto (λ one n has. Seen-Onto a.onto n (
            seen one n
              (a.old n (subst (λ l. contains l n ≡ true) (a.here ∙ append-nil a.passed) has))))))
    pass (q ∷ zs) block prev xs b ls nz own a seen calm rest =
        let c : Bag = noted size threads t.thread_id round a.bag q in
        let onto : Onto size threads t.thread_id a.bag a.lists c a.lists =
          noted-Onto size threads t.thread_id round a.bag q a.lists a.onto.valid in
        let calm' : Calm round a.bag (a.lists index) = Calm-Onto a.onto round index calm in
        let has_q : contains (a.lists index) q ≡ true =
          subst (λ l. contains l q ≡ true) (sym a.here) (contains-middle a.passed q zs) in
        let q_nz : q ≢ 0 =
          (link_of size threads enough t index q a.passed a.behind a.bag a.lists a.onto.valid two
            a.passed q zs a.here).0 in
        let own' : Mine size a.bag t = a.onto.mine t own in
        to_next (q ∷ zs) block prev xs b ls nz a (
          scan_block size threads enough t round i index q a.behind size 0 a.bag a.lists q_nz
            (omega arith) lt a.onto.valid own'
            (
              index_lt,
              inr (inl has_q),
              behind-IsRef a,
              omega arith,
              λ _ slot below. absurd (omega arith),
            )
            (elim calm' [ inl le ↦ inl le | inr m ↦ inr (m q has_q) ])
            (λ none.
              pass zs q a.behind a.passed c a.lists q_nz (onto.mine t own')
                (advance size threads enough t index q a.passed a.behind c a.lists onto.valid two zs
                  a.here a.is_behind (inr (onto.clean q (λ slot. none slot (omega arith)))))
                (λ one n old. elim old [
                  | inl passed ↦ Seen-Onto onto n (Seen-Onto a.onto n (seen one n (a.old n passed)))
                  | inr e ↦ subst (Seen c) (sym e) (
                    onto.clean q (λ slot. none slot (omega arith)),
                    noted-Marked size threads t.thread_id round a.bag q one,
                  )
                ])
                (Calm-Onto onto round index calm')
                (λ d ls' further. rest d ls' (
                  Onto-trans size threads t.thread_id a.onto
                    (Onto-trans size threads t.thread_id onto further)))))

    pass_first :
        (ns : List ℕ) (b : Bag) (ls : Array (List ℕ))
        → Valid b ls
        → Mine size b t
        → ls index ≡ ns
        → Calm round b (ls index)
        → Rest round i index b ls
        → Goes size threads enough t b ls (
            after size threads enough t round i (λ _.
              steal_from size threads round b
                (at size threads enough t index (first ns) 0 0)
                (first ns)
                0))
    pass_first [] b ls v own here calm rest =
        subst (λ o. Goes size threads enough t b ls (after size threads enough t round i (λ _. o)))
          (sym (steal_none b 0 0 0))
          (rest b ls (Onto-refl size threads t.thread_id b ls v)
            (λ one n has. absurd (cc (sym has ∙ ap (λ l. contains l n) here))))
    pass_first (n ∷ ns) b ls v own here calm rest =
        let c : Bag = noted size threads t.thread_id round b n in
        let onto : Onto size threads t.thread_id b ls c ls =
          noted-Onto size threads t.thread_id round b n ls v in
        let nz : n ≢ 0 = (link_of size threads enough t index n [] 0 b ls v two [] n ns here).0 in
        scan_block size threads enough t round i index n 0 0 0 b ls nz (omega arith) lt v own
          (
            index_lt,
            inr (inl (subst (λ l. contains l n ≡ true) (sym here) (contains-middle [] n ns))),
            inl refl,
            omega arith,
            λ _ slot below. absurd (omega arith),
          )
          (elim calm [
            | inl le ↦ inl le
            | inr m ↦
                inr (m n (subst (λ l. contains l n ≡ true) (sym here) (contains-middle [] n ns)))
          ])
          (λ none.
            pass ns n 0 [] c ls nz (onto.mine t own)
              (advance size threads enough t index n [] 0 c ls onto.valid two ns here (inl refl)
                (inl refl))
              (λ one m old. elim old [
                | inl nowhere ↦ absurd (cc (nowhere))
                | inr e ↦ subst (Seen c) (sym e) (
                  onto.clean n (λ slot. none slot (omega arith)),
                  noted-Marked size threads t.thread_id round b n one,
                )
              ])
              (Calm-Onto onto round index calm)
              (λ d ls' further. rest d ls' (Onto-trans size threads t.thread_id onto further)))

    -- From the start of a list on.
    pub pass_list :
        (b : Bag) (ls : Array (List ℕ)) (head : ℕ)
        → Valid b ls
        → Mine size b t
        → Calm round b (ls index)
        → Rest round i index b ls
        → Goes size threads enough t b ls
            (rounds_from size threads enough t round i b (at size threads enough t index 0 0 head))
    pass_list b ls head v own calm rest =
        Goes-call size threads enough t round i b ls (at size threads enough t index 0 0 head) (
          Goes-same
            (λ walk fuel le.
              ap (λ o. after size threads enough t round i (λ _. o) walk fuel)
                (try_steal_block_first size threads enough t round walk b index 0 0 pos head
                  ∙ ap
                      (λ h.
                        steal_from size threads round b (at size threads enough t index h 0 0) h 0)
                      (Walks-first b.next (b.heads index) (ls index) (v.walks index))))
            (pass_first (ls index) b ls v own refl calm rest))
