-- ===== src/Bag/Remove/Rounds.antt =====
-- The two `do` loops of `tryRemoveAny`, from the start of a list on.
use temp_data_structure_benc.Prelude.{
  ℕ, zero, suc, ◌+◌, ◌-◌, ◌%◌, ◌≤◌, ◌<◌, ◌≡◌, ◌⊎◌, ◌∙◌, inl, inr, refl, sym, ap, true, List, Array,
  arith,
}
use mathlib.Core.Path.{subst}
use native.Mathlib.Decide.{ℕ_discrete}
use native.Mathlib.Nat.{mod_self, mod-eq_of_lt}
use temp_data_structure_benc.Prelude.Sort.{contains}
use temp_data_structure_benc.Bag.State.{Tls, Bag}
use temp_data_structure_benc.Bag.Remove.{Outcome, steal_rounds}
use temp_data_structure_benc.Bag.Remove.Ready.{Valid, Mine, Leaves-refl}
use temp_data_structure_benc.Bag.Remove.Seen.{Onto}
use temp_data_structure_benc.Bag.Remove.Scan.{
  Ends, Goes, at, rounds_from, after, retry_list, retry_round, retry_end,
}
use temp_data_structure_benc.Bag.Remove.Pass.{Seen, Seen-Onto, Goes-same, pass_list}

-- The index goes round.
pub step_index :
    (threads index : ℕ)
    → index < threads
    → ((index + 1) % threads ≡ index + 1) × (index + 1 < threads)
      ⊎ ((index + 1 ≡ threads) × ((index + 1) % threads ≡ 0))
step_index threads index lt = elim (ℕ_discrete (index + 1) threads) [
  | yes e ↦ inr (e, ap (λ k. k % threads) e ∙ mod_self threads)
  | no ne ↦ inl (mod-eq_of_lt (omega arith), omega arith)
]

-- `j` is among the `i` lists from `start` on, round the ring.
abbrev pub Done : ℕ → ℕ → ℕ → ℕ → Type 0
Done threads start i j = (start ≤ j) × (j < start + i) ⊎ (j + threads < start + i)

-- The index after `i` lists from `start` on.
abbrev pub IsAt : ℕ → ℕ → ℕ → ℕ → Type 0
IsAt threads start i index =
    (index < threads) × (start < threads) × ((index ≡ start + i) ⊎ (index + threads ≡ start + i))

Done-all : (threads start j : ℕ) → start < threads → j < threads → Done threads start threads j
Done-all threads start j lt in_range = ground arith

Done-step :
    (threads start i index j : ℕ)
    → IsAt threads start i index
    → j < threads
    → Done threads start (i + 1) j
    → (j ≡ index) ⊎ Done threads start i j
Done-step threads start i index j a in_range d = ground (arith, a)

pub IsAt-step :
    (threads start i index : ℕ)
    → IsAt threads start i index
    → i < threads
    → IsAt threads start (i + 1) ((index + 1) % threads)
IsAt-step threads start i index a lt = elim (step_index threads index a.0) [
  | inl (e, more) ↦ subst (IsAt threads start (i + 1)) (sym e) (more, a.1, ground (arith, a))
  | inr (e, z) ↦
      subst (IsAt threads start (i + 1)) (sym z) (omega (arith, lt), a.1, ground (arith, a))
]

module _ (size threads enough : ℕ) (t : Tls) (pos : 0 < size) (two : 2 ≤ enough) where
  -- All blocks of all lists have been seen.
  abbrev pub AllSeen : Bag → Array (List ℕ) → Type 0
  AllSeen b ls = (j n : ℕ) → j < threads → contains (ls j) n ≡ true → Seen size threads enough t b n

  abbrev pub Before : ℕ → Bag → Array (List ℕ) → Type 0
  Before round b ls = (round ≤ 1) ⊎ AllSeen b ls

  -- What is to be shown of the rest of the call, from the end of a round on.
  abbrev pub NextRound : ℕ → Type 0
  NextRound round =
      (i index : ℕ) (b : Bag) (ls : Array (List ℕ))
      → threads ≡ i + 1
      → index < threads
      → Valid b ls
      → Mine size b t
      → (round ≡ 0) ⊎ AllSeen b ls
      → Goes size threads enough t b ls (
          after size threads enough t round i
            (λ _. Outcome.empty b (at size threads enough t index 0 0 0)))

  abbrev pub DoneSeen : ℕ → ℕ → ℕ → Bag → Array (List ℕ) → Type 0
  DoneSeen round start i b ls =
      round ≡ 1
      → (j n : ℕ) → j < threads
      → Done threads start i j
      → contains (ls j) n ≡ true
      → Seen size threads enough t b n

  module _ {b c : Bag} {ls ls' : Array (List ℕ)} (onto : Onto size threads t.thread_id b ls c ls')
      (round : ℕ) where
    DoneSeen-step :
        (start i index : ℕ)
        → IsAt threads start i index
        → DoneSeen round start i b ls
        → (round ≡ 1 → (n : ℕ) → contains (ls' index) n ≡ true → Seen size threads enough t c n)
        → DoneSeen round start (i + 1) c ls'
    DoneSeen-step start i index a done seen one j n lt d has =
        elim (Done-step threads start i index j a lt d) [
          | inl e ↦ seen one n (subst (λ k. contains (ls' k) n ≡ true) e has)
          | inr old ↦
              Seen-Onto size threads enough t onto n (done one j n lt old (onto.sub j n has))
        ]

    Before-step : Before round b ls → Before round c ls'
    Before-step (inl le) = inl le
    Before-step (inr all) =
        inr (λ j n lt has. Seen-Onto size threads enough t onto n (all j n lt (onto.sub j n has)))

  round_seen :
      (round start i : ℕ) (b : Bag) (ls : Array (List ℕ))
      → start < threads
      → i + 1 ≡ threads
      → Before round b ls
      → DoneSeen round start (i + 1) b ls
      → (round ≡ 0) ⊎ AllSeen b ls
  round_seen round start i b ls lt last (inr all) done = inr all
  round_seen round start i b ls lt last (inl le) done = elim (ℕ_discrete round 0) [
    | yes z ↦ inl z
    | no nz ↦ inr (λ j n in_range.
        done (omega arith) j n in_range
          (subst (λ k. Done threads start k j) (sym last) (Done-all threads start j lt in_range)))
  ]

  one_list :
      (round i start index : ℕ) (b : Bag) (ls : Array (List ℕ))
      → i < threads
      → IsAt threads start i index
      → Valid b ls
      → Mine size b t
      → Before round b ls
      → DoneSeen round start i b ls
      → ((c : Bag) (ls' : Array (List ℕ))
          → Valid c ls'
          → Mine size c t
          → Before round c ls'
          → DoneSeen round start (i + 1) c ls'
          → Goes size threads enough t c ls' (
              after size threads enough t round i
                (λ _. Outcome.empty c (at size threads enough t ((index + 1) % threads) 0 0 0))))
      → (head : ℕ)
      → Goes size threads enough t b ls
          (rounds_from size threads enough t round i b (at size threads enough t index 0 0 head))
  one_list round i start index b ls lt a v own before done rest head =
      pass_list size threads enough t pos two round i index lt a.0 b ls head v own
        (elim before [ inl le ↦ inl le | inr all ↦ inr (λ n has. (all index n a.0 has).1) ])
        (λ c ls' onto seen.
          rest c ls' onto.valid (onto.mine t own) (Before-step onto round before)
            (DoneSeen-step onto round start i index a done seen))

  pub go_lists :
      (m round i start index : ℕ) (b : Bag) (ls : Array (List ℕ))
      → suc m + i ≡ threads
      → IsAt threads start i index
      → Valid b ls
      → Mine size b t
      → Before round b ls
      → DoneSeen round start i b ls
      → NextRound round
      → (head : ℕ)
      → Goes size threads enough t b ls
          (rounds_from size threads enough t round i b (at size threads enough t index 0 0 head))
  go_lists zero round i start index b ls left a v own before done rest head =
      one_list round i start index b ls (omega arith) a v own before done
        (λ c ls' v' own' before' done'.
          rest i ((index + 1) % threads) c ls' (omega arith)
            (IsAt-step threads start i index a (omega arith)).0 v' own'
            (round_seen round start i c ls' a.1 (omega arith) before' done'))
        head
  go_lists (suc m) round i start index b ls left a v own before done rest head =
      let index' : ℕ = (index + 1) % threads in
      one_list round i start index b ls (omega arith) a v own before done
        (λ c ls' v' own' before' done'.
          Goes-same size threads enough t
            (λ walk fuel le.
              retry_list threads (steal_rounds size threads walk fuel) size round i c
                (at size threads enough t index' 0 0 0) refl refl (omega arith))
            (go_lists m round (i + 1) start index' c ls' (omega arith)
              (IsAt-step threads start i index a (omega arith)) v' own' before' done' rest 0))
        head

  from_list :
      (round index : ℕ) (b : Bag) (ls : Array (List ℕ))
      → index < threads
      → Valid b ls
      → Mine size b t
      → Before round b ls
      → NextRound round
      → (head : ℕ)
      → Goes size threads enough t b ls
          (rounds_from size threads enough t round 0 b (at size threads enough t index 0 0 head))
  from_list round index b ls lt v own before rest head =
      go_lists (threads - 1) round 0 index index b ls (omega arith) (lt, lt, inl (omega arith)) v
        own before (λ _ j n _ d _. absurd (ground (arith, d))) rest head

  pub next_round : (k round : ℕ) → k + round ≡ threads → NextRound round
  next_round zero round left i index b ls last lt v own seen =
      Goes-same size threads enough t
        (λ walk fuel le.
          retry_end threads (steal_rounds size threads walk fuel) size round i b
            (at size threads enough t index 0 0 0) refl refl (omega arith) (omega arith))
        (
          0,
          λ walk fuel le m.
              Ends.empty ls (Leaves-refl size threads t.thread_id b ls)
                (record {
                  valid = v;
                  mine = own;
                  place =
                      (lt, inl refl, inl refl, omega arith, λ _ slot below. absurd (omega arith));
                })
                refl
                (elim seen [
                  | inl z ↦ absurd (omega (arith, z))
                  | inr all ↦ λ j n in_range has. (all j n in_range has).0
                ]),
        )
  next_round (suc k) round left i index b ls last lt v own seen =
      Goes-same size threads enough t
        (λ walk fuel le.
          retry_round threads (steal_rounds size threads walk fuel) size round i b
            (at size threads enough t index 0 0 0) refl refl (omega arith) (omega arith))
        (from_list (round + 1) index b ls lt v own
          (elim seen [ inl z ↦ inl (omega (arith, z)) | inr all ↦ inr all ])
          (next_round k (round + 1) (omega arith)) 0)
