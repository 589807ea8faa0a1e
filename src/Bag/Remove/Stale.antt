-- ===== src/Bag/Remove/Stale.antt =====
-- The calls of TryStealBlock from wherever the thread's position is, up to the end of that list.
use temp_data_structure_benc.Prelude.{
  ℕ, zero, suc, ◌+◌, ◌≤◌, ◌<◌, ◌≡◌, ◌≢◌, ◌⊎◌, ◌∙◌, inl, inr, refl, sym, ap, true, false, Bool, List,
  [], ◌∷◌, ◌++◌, append_assoc, Array, arith, ◌==◌, Bool-cases, length,
}
use mathlib.Core.Path.{subst}
use native.Mathlib.Decide.{ℕ_discrete}
use temp_data_structure_benc.Prelude.Sort.{contains}
use temp_data_structure_benc.Bag.State.{plain, deleted_link, Tls, Bag}
use temp_data_structure_benc.Bag.Remove.{Found, link_eq, next_steal_block, steal_from, steal_next}
use temp_data_structure_benc.Bag.Remove.Lists.{
  Walks-first, first, split, contains-middle, contains-right,
}
use temp_data_structure_benc.Bag.Remove.Walk.{next_steal_block_dead}
use temp_data_structure_benc.Bag.Remove.Ready.{Valid, IsRef, Clean, Mine, Place, tail_after}
use temp_data_structure_benc.Bag.Remove.Seen.{Onto-refl}
use temp_data_structure_benc.Bag.Remove.Scan.{
  Goes, Goes-call, at, rounds_from, after, scan_block, below_or_from, try_steal_block_first,
  try_steal_block_within, try_steal_block_next,
}
use temp_data_structure_benc.Bag.Remove.Advance.{Behind, advance, link_of}
use temp_data_structure_benc.Bag.Remove.Pass.{Rest, Goes-same, steal_none}
use temp_data_structure_benc.Bag.Remove.Rewalk.{first_ne, walk_past, last_of}
use temp_data_structure_benc.Bag.Remove.Lost.{go_on, lost}

other_link :
    (q block : ℕ) (m1 m2 : Bool)
    → q ≢ block
    → link_eq (record { ptr = q; mark1 = m1; mark2 = m2 }) (plain block) ≡ false
other_link q block m1 m2 ne = let off : (q == block) ≡ false = ground (arith, ne) in rw off refl

uncons : (us : List ℕ) (n : ℕ) → first us ≡ n → n ≢ 0 → (us' : List ℕ) × (us ≡ n ∷ us')
uncons [] n e nz = absurd (nz (sym e))
uncons (u ∷ us) n e nz = (us, ap (λ k. k ∷ us) e)

tail-has :
    (p : ℕ) (vs us : List ℕ) (k : ℕ)
    → contains us k ≡ true
    → contains (tail_after p (vs ++ (p ∷ us))) k ≡ true
tail-has p [] us k h = ground (arith, h)
tail-has p (v ∷ vs) us k h =
    ground (arith, tail-has p vs us k h, contains-right vs (p ∷ us) k (ground (arith, h)))

last_in : (n : ℕ) (ns : List ℕ) (p : ℕ) → contains (n ∷ ns) (last_of p (n ∷ ns)) ≡ true
last_in n [] p = ground arith
last_in n (m ∷ ns) p = ground (arith, last_in m ns n)

module _ (size threads enough : ℕ) (t : Tls) (pos : 0 < size) (two : 2 ≤ enough) (index : ℕ)
    (index_lt : index < threads) (b : Bag) (ls : Array (List ℕ)) (v : Valid b ls)
    (own : Mine size b t) (room : length (ls index) + 2 ≤ enough)
    (rest : Rest size threads enough t 0 0 index b ls) where
  in_list :
      (block prev : ℕ)
      → contains (ls index) block ≡ true
      → IsRef b (ls index) prev
      → (contains (tail_after prev (ls index)) block ≡ true → Clean size b block)
      → Goes size threads enough t b ls
          (rounds_from size threads enough t 0 0 b (at size threads enough t index block prev size))
  in_list block prev has ref swept = elim (ℕ_discrete prev 0) [
    | yes z ↦ go_from found.0 found.1 found.2 (inl z) (inl z)
    | no nz ↦ elim ref [
      | inl z ↦ absurd (nz z)
      | inr (inl has_prev) ↦
          let (vs, us, e) = split (ls index) prev has_prev in after_prev nz vs us e
      | inr (inr (gone, _)) ↦
          lost size threads enough t pos two index index_lt b ls v own room rest block prev nz
            (rw gone (other_link 0 block true false (λ z. block_nz (sym z)))) has
    ]
  ]
    where
      found : (xs : List ℕ) × (ys : List ℕ) × (ls index ≡ xs ++ (block ∷ ys))
      found = split (ls index) block has

      block_nz : block ≢ 0
      block_nz =
          (link_of size threads enough t index block found.0 0 b ls v two found.0 block found.1
            found.2).0

      go_from :
          (xs ys : List ℕ)
          → ls index ≡ xs ++ (block ∷ ys)
          → Behind prev xs
          → (prev ≡ 0) ⊎ Clean size b block
          → Goes size threads enough t b ls (
              rounds_from size threads enough t 0 0 b
                (at size threads enough t index block prev size))
      go_from xs ys here k c =
          go_on size threads enough t pos two index index_lt b ls v own room rest ys block prev xs
            block_nz (advance size threads enough t index block xs prev b ls v two ys here k c)

      after_prev :
          prev ≢ 0
          → (vs us : List ℕ) → ls index ≡ vs ++ (prev ∷ us)
          → Goes size threads enough t b ls (
              rounds_from size threads enough t 0 0 b
                (at size threads enough t index block prev size))
      after_prev nz vs us e =
          let link : b.next prev ≡ plain (first us) =
            (link_of size threads enough t index block vs 0 b ls v two vs prev us e).1 in
          elim (ℕ_discrete (first us) block) [
            | yes same ↦
                let (us', cons) = uncons us block same block_nz in
                go_from (vs ++ (prev ∷ [])) us'
                  (e
                    ∙ ap (λ (l : List ℕ). vs ++ (prev ∷ l)) cons
                    ∙ sym (append_assoc vs (prev ∷ []) (block ∷ us')))
                  (inr (vs, refl))
                  (inr (
                    swept (
                      subst (λ l. contains (tail_after prev l) block ≡ true) (sym e)
                        (tail-has prev vs us block
                          (subst (λ l. contains l block ≡ true) (sym cons) (ground arith))))))
            | no ne ↦
                lost size threads enough t pos two index index_lt b ls v own room rest block prev nz
                  (rw link (other_link (first us) block false false ne)) has
          ]

  -- The search of a list from its head on, in the first round.
  enter :
      (ns : List ℕ) (prev old : ℕ)
      → ls index ≡ ns
      → IsRef b (ls index) prev
      → Goes size threads enough t b ls (
          after size threads enough t 0 0 (λ _.
            steal_from size threads 0 b
              (at size threads enough t index (first ns) prev old)
              (first ns)
              0))
  enter [] prev old here ref =
      subst (λ o. Goes size threads enough t b ls (after size threads enough t 0 0 (λ _. o)))
        (sym (
          steal_none size threads enough t pos two 0 0 index (omega (arith, index_lt)) index_lt b 0
            prev old))
        (rest b ls (Onto-refl size threads t.thread_id b ls v) (λ z. absurd (omega (arith, z))))
  enter (n ∷ ns) prev old here ref =
      scan_block size threads enough t 0 0 index n prev old 0 b ls
        (link_of size threads enough t index n [] 0 b ls v two [] n ns here).0 (omega arith)
        (omega (arith, index_lt)) v own
        (
          index_lt,
          inr (inl (subst (λ l. contains l n ≡ true) (sym here) (contains-middle [] n ns))),
          ref,
          omega arith,
          λ _ slot below. absurd (omega arith),
        )
        (inl (omega arith))
        (λ none.
          in_list n prev (subst (λ l. contains l n ≡ true) (sym here) (contains-middle [] n ns)) ref
            (λ _ slot below. none slot (omega arith) below))

  -- The thread's block has been cut out of the list.
  gone :
      (block prev : ℕ)
      → block ≢ 0
      → contains (ls index) block ≡ false
      → b.next block ≡ deleted_link
      → Goes size threads enough t b ls
          (rounds_from size threads enough t 0 0 b (at size threads enough t index block prev size))
  unfolding steal_next
  gone block prev nz out dead =
      let ns : List ℕ = ls index in
      let heads : b.heads index ≡ first ns =
        Walks-first b.next (b.heads index) ns (v.walks index) in
      Goes-call size threads enough t 0 0 b ls (at size threads enough t index block prev size) (
        Goes-same size threads enough t
          (λ walk fuel le.
            ap (λ o. after size threads enough t 0 0 (λ _. o) walk fuel)
              (try_steal_block_next size threads enough t 0 walk b index block prev nz
                ∙ ap (steal_next size threads 0) (
                    found walk heads (omega arith)
                    ∙ ap
                        (λ h.
                          Found.block_at h b
                            (at size threads enough t index block (last_of 0 ns) size))
                        heads)))
          (enter ns (last_of 0 ns) size refl (last_ref ns)))
    where
      last_ref : (ns : List ℕ) → IsRef b ns (last_of 0 ns)
      last_ref [] = inl refl
      last_ref (n ∷ ns) = inr (inl (last_in n ns 0))

      found :
          (walk : ℕ)
          → b.heads index ≡ first (ls index)
          → length (ls index) + 2 ≤ walk
          → next_steal_block walk block b (at size threads enough t index block prev size)
            ≡ Found.block_at
                (b.heads index)
                b
                (at size threads enough t index block (last_of 0 (ls index)) size)
      found zero heads le = absurd (omega arith)
      found (suc walk) heads le =
          next_steal_block_dead walk b (at size threads enough t index block prev size) block nz
            dead
            (λ e. first_ne size threads enough t index block b nz (ls index) out (sym heads ∙ e))
          ∙ walk_past size threads enough t index block b nz (ls index) (b.heads index) walk 0
              (v.walks index) out (omega arith)

  scanned :
      (block prev : ℕ)
      → block ≢ 0
      → IsRef b (ls index) block
      → IsRef b (ls index) prev
      → (contains (tail_after prev (ls index)) block ≡ true → Clean size b block)
      → Goes size threads enough t b ls
          (rounds_from size threads enough t 0 0 b (at size threads enough t index block prev size))
  scanned block prev nz here ref swept = elim (Bool-cases (contains (ls index) block)) [
    | inl has ↦ in_list block prev has ref swept
    | inr out ↦ elim here [
      | inl z ↦ absurd (nz z)
      | inr (inl has) ↦ absurd (cc (has, out))
      | inr (inr (dead, _)) ↦ gone block prev nz out dead
    ]
  ]

  -- From any position on.
  pub anywhere :
      (block prev head : ℕ)
      → Place size threads b ls index block prev head
      → Goes size threads enough t b ls
          (rounds_from size threads enough t 0 0 b (at size threads enough t index block prev head))
  anywhere block prev head place = elim (ℕ_discrete block 0) [
    | yes z ↦
        subst
          (λ k.
            Goes size threads enough t b ls (
              rounds_from size threads enough t 0 0 b (at size threads enough t index k prev head)))
          (sym z)
          (Goes-call size threads enough t 0 0 b ls (at size threads enough t index 0 prev head) (
            Goes-same size threads enough t
              (λ walk fuel more.
                ap (λ o. after size threads enough t 0 0 (λ _. o) walk fuel)
                  (try_steal_block_first size threads enough t 0 walk b index 0 prev pos head
                    ∙ ap
                        (λ h.
                          steal_from size threads 0 b (at size threads enough t index h prev 0) h 0)
                        (Walks-first b.next (b.heads index) (ls index) (v.walks index))))
              (enter (ls index) prev 0 refl place.2)))
    | no nz ↦ elim (ℕ_discrete head size) [
      | yes end ↦
          subst
            (λ k. Goes size threads enough t b ls (
              rounds_from size threads enough t 0 0 b
                (at size threads enough t index block prev k)))
            (sym end)
            (scanned block prev nz place.1 place.2
              (λ behind slot below. place.4 behind slot (omega arith)))
      | no within ↦
          Goes-call size threads enough t 0 0 b ls (at size threads enough t index block prev head)
            (Goes-same size threads enough t
              (λ walk fuel more.
                ap (λ o. after size threads enough t 0 0 (λ _. o) walk fuel)
                  (try_steal_block_within size threads enough t 0 walk b index block prev head nz
                    within))
              (scan_block size threads enough t 0 0 index block prev head head b ls nz place.3
                (omega (arith, index_lt)) v own place (inl (omega arith))
                (λ none. scanned block prev nz place.1 place.2 (λ behind slot lt.
                  elim (below_or_from slot head) [
                    | inl below ↦ place.4 behind slot below
                    | inr from ↦ none slot from lt
                  ]))))
    ]
  ]
