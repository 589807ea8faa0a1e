-- ===== src/Bag/Remove/Scan.antt =====
-- One call of TryStealBlock that looks through a block, and what the two loops do behind it.
use temp_data_structure_benc.Prelude.{
  ℕ, zero, suc, ◌+◌, ◌-◌, ◌≤◌, ◌<◌, ◌≡◌, ◌≢◌, ◌⊎◌, inl, inr, refl, sym, Bool, true, false, not,
  ◌&&◌, List, Array, arith, ◌==◌, ltb, Bool-cases, if◌then◌else◌, if_elim,
}
use mathlib.Core.Path.{subst}
use temp_data_structure_benc.Prelude.Sort.{contains}
use temp_data_structure_benc.Bag.State.{Tls, Bag}
use temp_data_structure_benc.Bag.Blocks.{notify_check}
use temp_data_structure_benc.Bag.Remove.{
  Outcome, first_taken, steal_from, steal_next, next_steal_block, retry, try_steal_block,
  steal_rounds,
}
use temp_data_structure_benc.Bag.Remove.Ready.{
  Valid, Clean, Mine, Place, Ready, Leaves, Leaves-trans, taken-Leaves, taken-Ready,
}
use temp_data_structure_benc.Bag.Remove.Effects.{first_taken_lem}
use temp_data_structure_benc.Bag.Remove.Seen.{
  Marked, Onto, noted, noted-Onto, noted_empty, first_taken-before,
}

-- A call of the thread `tid` that returns: with an item, or after it has seen that the lists, as it
-- leaves them, hold none. It leaves the bag and the threads in order.
pub data Ends (size threads tid : ℕ) (b : Bag) (ls : Array (List ℕ)) : Outcome → Type 0 where
  removed :
      {item : ℕ} {c : Bag} {t : Tls} (ls' : Array (List ℕ))
      → Leaves size threads tid b ls c ls'
      → Ready size threads c ls' t
      → t.thread_id ≡ tid
      → Ends size threads tid b ls (Outcome.removed item c t)
  empty :
      {c : Bag} {t : Tls} (ls' : Array (List ℕ))
      → Leaves size threads tid b ls c ls'
      → Ready size threads c ls' t
      → t.thread_id ≡ tid
      → ((i n : ℕ) → i < threads → contains (ls' i) n ≡ true → Clean size c n)
      → Ends size threads tid b ls (Outcome.empty c t)

pub Leaves-Ends :
    {size threads tid : ℕ} {b c : Bag} {ls ls' : Array (List ℕ)} {o : Outcome}
    → Leaves size threads tid b ls c ls'
    → Ends size threads tid c ls' o
    → Ends size threads tid b ls o
Leaves-Ends {size = size} {threads = threads} l (Ends.removed m k r same) =
    Ends.removed m (Leaves-trans size threads l k) r same
Leaves-Ends {size = size} {threads = threads} l (Ends.empty m k r same none) =
    Ends.empty m (Leaves-trans size threads l k) r same none

pub below_or_from : (k head : ℕ) → (k < head) ⊎ (head ≤ k)
below_or_from k head = elim (Bool-cases (ltb k head)) [
  | inl lt ↦ inl (ground (arith, lt))
  | inr ge ↦ inr (ground (arith, ge))
]

module _ (threads : ℕ) (loop : ℕ → ℕ → Bag → Tls → Outcome) (size round i : ℕ) (b : Bag) (t : Tls)
    (same : t.found_add ≡ false) where
  pub retry_block :
      t.steal_block ≢ 0
      → i < threads
      → retry size threads loop round i (Outcome.empty b t) ≡ loop round i b t
  unfolding retry
  retry_block nz lt = ground (arith, same, nz, lt)

  module _ (at_end : t.steal_block ≡ 0) where
    pub retry_list :
        i + 1 < threads
        → retry size threads loop round i (Outcome.empty b t) ≡ loop round (i + 1) b t
    unfolding retry
    retry_list lt = ground (arith, same, at_end, lt)

    pub retry_round :
        threads ≤ i + 1
        → round + 1 ≤ threads
        → retry size threads loop round i (Outcome.empty b t) ≡ loop (round + 1) 0 b t
    unfolding retry
    retry_round le more = ground (arith, same, at_end, le, more)

    pub retry_end :
        threads ≤ i + 1
        → threads ≤ round
        → retry size threads loop round i (Outcome.empty b t) ≡ Outcome.empty b t
    unfolding retry
    retry_end le more = ground (arith, same, at_end, le, more)

module _ (size threads enough : ℕ) (t : Tls) where
  -- A call returns, if the fuel of NextStealBlock is at least `enough` and that of the call is large
  -- enough.
  abbrev pub Goes : Bag → Array (List ℕ) → (ℕ → ℕ → Outcome) → Type 0
  Goes b ls f =
      (n : ℕ) × ((walk fuel : ℕ)
        → enough ≤ walk
        → n ≤ fuel
        → Ends size threads t.thread_id b ls (f walk fuel))

  pub Leaves-Goes :
      {b c : Bag} {ls ls' : Array (List ℕ)} {f : ℕ → ℕ → Outcome}
      → Leaves size threads t.thread_id b ls c ls'
      → Goes c ls' f
      → Goes b ls f
  Leaves-Goes l (n, f) = (n, λ walk fuel k m. Leaves-Ends l (f walk fuel k m))

  -- The thread at a position of its search.
  abbrev pub at : ℕ → ℕ → ℕ → ℕ → Tls
  at index block prev head = record t {
    steal_block = block;
    steal_prev = prev;
    steal_head = head;
    steal_index = index;
    found_add = false;
  }

  abbrev pub rounds_from : ℕ → ℕ → Bag → Tls → ℕ → ℕ → Outcome
  rounds_from round i b u walk fuel = steal_rounds size threads walk fuel round i b u

  abbrev pub after : ℕ → ℕ → (ℕ → Outcome) → ℕ → ℕ → Outcome
  after round i o walk fuel =
      retry size threads (steal_rounds size threads walk fuel) round i (o walk)

  pub Goes-call :
      (round i : ℕ) (b : Bag) (ls : Array (List ℕ)) (u : Tls)
      → Goes b ls (after round i (λ walk. try_steal_block size threads walk round b u))
      → Goes b ls (rounds_from round i b u)
  unfolding steal_rounds
  Goes-call round i b ls u (n, f) = (suc n, call)
    where
      call :
          (walk fuel : ℕ)
          → enough ≤ walk
          → suc n ≤ fuel
          → Ends size threads t.thread_id b ls (steal_rounds size threads walk fuel round i b u)
      call walk zero k le = absurd (omega arith)
      call walk (suc fuel) k le = f walk fuel k (omega arith)

  module _ (round i index block prev old head : ℕ) (b : Bag) (ls : Array (List ℕ)) where
    calm-quiet :
        (round ≤ 1) ⊎ Marked size threads t.thread_id b block
        → (not (round == 1) && ltb 1 round && notify_check b block t.thread_id) ≡ false
    unfolding notify_check
    calm-quiet (inl le) = ground arith
    calm-quiet (inr m) = ground (arith, m)

    pub scan_block :
        block ≢ 0
        → head ≤ size
        → i < threads
        → Valid b ls
        → Mine size b t
        → Place size threads b ls index block prev head
        → (round ≤ 1) ⊎ Marked size threads t.thread_id b block
        → (((slot : ℕ) → head ≤ slot → slot < size → b.items block slot ≡ b.sentinel)
            → Goes (noted size threads t.thread_id round b block) ls (
                rounds_from round i
                  (noted size threads t.thread_id round b block)
                  (at index block prev size)))
        → Goes b ls (
            after round i
              (λ walk. steal_from size threads round b (at index block prev old) block head))
    unfolding steal_from retry
    scan_block nz le lt v mine place calm go =
        let c : Bag = noted size threads t.thread_id round b block in
        let u : Tls = at index block prev old in
        let found : Bool = not (round == 1) && ltb 1 round && notify_check b block t.thread_id in
        let slot : ℕ = first_taken c block (size - head) head in
        let onto : Onto size threads t.thread_id b ls c ls =
          noted-Onto size threads t.thread_id round b block ls v in
        let Result : Outcome → Type 0 = λ o. Goes b ls (after round i (λ _. o)) in
        if_elim Result (block == 0) (λ z. absurd (ground (arith, z)))
          (λ _.
            if_elim Result (slot == size)
              (λ end.
                let is_end : slot ≡ size = ground (arith, end) in
                let (n, f) = Leaves-Goes onto.leaves (
                  go (λ k from to. noted_empty size threads t.thread_id round b block k (
                    first_taken-before c block (size - head) head k from
                      (omega (arith, is_end))))) in
                subst
                  (λ s. Result (Outcome.empty c (record u { steal_head = s; found_add = found })))
                  (sym is_end)
                  (subst
                    (λ v. Result (Outcome.empty c (record u { steal_head = size; found_add = v })))
                    (sym (calm-quiet calm))
                    (
                      n,
                      λ walk fuel k m.
                          subst (Ends size threads t.thread_id b ls)
                            (sym (
                              retry_block threads (steal_rounds size threads walk fuel) size round i
                                c (at index block prev size) refl nz lt))
                            (f walk fuel k m),
                    )))
              (λ _. (
                0,
                λ _ _ _ _.
                    let moved = onto.leaves.places index block prev head place in
                    Ends.removed ls
                      (Leaves-trans size threads onto.leaves
                        (taken-Leaves size threads c ls block slot t.thread_id))
                      (taken-Ready size threads c ls block slot
                        (record u { steal_head = slot; found_add = found })
                        (record {
                          valid = onto.valid;
                          mine = onto.mine t mine;
                          place = (
                            moved.0,
                            moved.1,
                            moved.2,
                            omega (arith, le, first_taken_lem c block (size - head) head),
                            λ behind k to. elim (below_or_from k head) [
                              | inl below ↦ moved.4 behind k below
                              | inr from ↦ first_taken-before c block (size - head) head k from to
                            ],
                          );
                        }))
                      refl,
              )))

  module _ (round walk : ℕ) (b : Bag) (index block prev : ℕ) where
    abbrev tried : Tls → Outcome
    tried u =
        if u.steal_head == size
        then steal_next size threads round (next_steal_block walk u.steal_block b u)
        else steal_from size threads round b u u.steal_block u.steal_head

    pub try_steal_block_first :
        0 < size
        → (head : ℕ)
        → try_steal_block size threads walk round b (at index 0 prev head)
          ≡ steal_from size threads round b (at index (b.heads index) prev 0) (b.heads index) 0
    unfolding try_steal_block
    try_steal_block_first pos head = ground arith

    pub try_steal_block_within :
        (head : ℕ)
        → block ≢ 0
        → head ≢ size
        → try_steal_block size threads walk round b (at index block prev head)
          ≡ steal_from size threads round b (at index block prev head) block head
    unfolding try_steal_block
    try_steal_block_within head nz ne =
        let goal : Outcome =
          steal_from size threads round b (at index block prev head) block head in
        if_elim (λ u. tried u ≡ goal) (block == 0) (λ z. absurd (ground (arith, z)))
          (λ _.
            if_elim (λ o. o ≡ goal) (head == size) (λ z. absurd (ground (arith, z))) (λ _. refl))

    pub try_steal_block_next :
        block ≢ 0
        → try_steal_block size threads walk round b (at index block prev size)
          ≡ steal_next size threads round (next_steal_block walk block b (at index block prev size))
    unfolding try_steal_block
    try_steal_block_next nz =
        let goal : Outcome =
          steal_next size threads round
            (next_steal_block walk block b (at index block prev size)) in
        if_elim (λ u. tried u ≡ goal) (block == 0) (λ z. absurd (ground (arith, z)))
          (λ _.
            if_elim (λ o. o ≡ goal) (size == size) (λ _. refl) (λ z. absurd (ground (arith, z))))
