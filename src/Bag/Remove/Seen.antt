-- ===== src/Bag/Remove/Seen.antt =====
-- What a pass over the lists finds and leaves: blocks without items, and the thread's bit on them.
use Prim.Native.Nat.{bit_and, bit_or}
use temp_data_structure_benc.Prelude.{
  ℕ, zero, suc, ◌+◌, ◌/◌, ◌%◌, ◌≤◌, ◌<◌, ◌≡◌, ◌≢◌, ◌⊎◌, ◌∙◌, inl, inr, refl, sym, ap, true, List,
  Array, update, update_self, update_ne, arith, ◌==◌, if◌then◌else◌, if_elim,
}
use mathlib.Core.Path.{subst}
use native.Mathlib.Decide.{ℕ_discrete}
use temp_data_structure_benc.Prelude.Mask.{two-pow_pos}
use temp_data_structure_benc.Prelude.Bits.{bit_and-bit_or}
use temp_data_structure_benc.Prelude.Sort.{contains}
use temp_data_structure_benc.Bag.State.{Tls, Bag, set_item}
use temp_data_structure_benc.Bag.Blocks.{thread_bit, notify_start}
use temp_data_structure_benc.Bag.Remove.{first_taken}
use temp_data_structure_benc.Bag.Remove.Ready.{
  Valid, Clean, Mine, Leaves, Leaves-refl, Leaves-trans,
}

thread_bit_pos : (tid : ℕ) → thread_bit tid ≢ 0
thread_bit_pos tid =
    if_elim (λ x. x ≢ 0) (tid % 64 % 32 == 31) (λ _. omega arith)
      (λ _ z. absurd (omega (arith, z, two-pow_pos (tid % 64 % 32))))

module _ (size threads tid : ℕ) where
  -- The thread's bit on the block is set.
  abbrev pub Marked : Bag → ℕ → Type 0
  Marked b n = bit_and (b.notify n (tid / 64)) (thread_bit tid) ≢ 0

  -- What the steps of a call that takes no item do: lists get shorter, blocks without items stay so,
  -- and bits stay set.
  pub record Onto (b : Bag) (ls : Array (List ℕ)) (c : Bag) (ls' : Array (List ℕ)) : Type 0 where
    pub valid : Valid c ls'
    pub clean : (n : ℕ) → Clean size b n → Clean size c n
    pub marked : (n : ℕ) → Marked b n → Marked c n
    pub sub : (i n : ℕ) → contains (ls' i) n ≡ true → contains (ls i) n ≡ true
    pub mine : (t : Tls) → Mine size b t → Mine size c t
    pub leaves : Leaves size threads tid b ls c ls'

  pub Onto-refl : (b : Bag) (ls : Array (List ℕ)) → Valid b ls → Onto b ls b ls
  Onto-refl b ls v = record {
    valid = v;
    clean = λ n h. h;
    marked = λ n h. h;
    sub = λ i n h. h;
    mine = λ t x. x;
    leaves = Leaves-refl size threads tid b ls;
  }

  pub Onto-trans :
      {b c d : Bag} {l m n : Array (List ℕ)} → Onto b l c m → Onto c m d n → Onto b l d n
  Onto-trans f g = record {
    valid = g.valid;
    clean = λ n h. g.clean n (f.clean n h);
    marked = λ n h. g.marked n (f.marked n h);
    sub = λ i n h. f.sub i n (g.sub i n h);
    mine = λ t x. g.mine t (f.mine t x);
    leaves = Leaves-trans size threads f.leaves g.leaves;
  }

  notify_start-Marked :
      (b : Bag) (block n : ℕ) → (n ≡ block) ⊎ Marked b n → Marked (notify_start b block tid) n
  unfolding notify_start
  notify_start-Marked b block n h =
      let w : ℕ = tid / 64 in
      let bits : ℕ = bit_or (b.notify block w) (thread_bit tid) in
      elim (ℕ_discrete block n) [
        | yes e ↦ λ z. thread_bit_pos tid (
            sym (bit_and-bit_or (b.notify block w) (thread_bit tid))
            ∙ ap (λ v. bit_and v (thread_bit tid))
                (sym (
                  ap (λ m. set_item b.notify block w bits m w) (sym e)
                  ∙ ap (λ (f : Array ℕ). f w)
                      (update_self b.notify block (update (b.notify block) w bits))
                  ∙ update_self (b.notify block) w bits))
            ∙ z)
        | no ne ↦ elim h [
          | inl e ↦ absurd (ne (sym e))
          | inr m ↦ λ z. m (
              ap (λ (f : Array ℕ). bit_and (f w) (thread_bit tid))
                (sym (update_ne b.notify (update (b.notify block) w bits) ne))
              ∙ z)
        ]
      ]

  -- The bag in which TryStealBlock looks through a block.
  abbrev pub noted : ℕ → Bag → ℕ → Bag
  noted round b block = if round == 1 then notify_start b block tid else b

  pub noted-Onto :
      (round : ℕ) (b : Bag) (block : ℕ) (ls : Array (List ℕ))
      → Valid b ls
      → Onto b ls (noted round b block) ls
  unfolding notify_start
  noted-Onto round b block ls v =
      if_elim (λ c. Onto b ls c ls) (round == 1)
        (λ _. record {
          valid = record { walks = v.walks; simple = v.simple; apart = v.apart; below = v.below };
          clean = λ n h. h;
          marked = λ n h. notify_start-Marked b block n (inr h);
          sub = λ i n h. h;
          mine = λ t x. x;
          leaves = record {
            places = λ i m p h x. x;
            heads = λ i ne. refl;
            free = λ i h ne x. x;
            holds = λ n x. x;
          };
        })
        (λ _. Onto-refl b ls v)

  pub noted-Marked :
      (round : ℕ) (b : Bag) (block : ℕ) → round ≡ 1 → Marked (noted round b block) block
  noted-Marked round b block e =
      if_elim (λ c. Marked c block) (round == 1) (λ _. notify_start-Marked b block block (inl refl))
        (λ z. absurd (ground (arith, z, e)))

module _ (size threads tid : ℕ) where
  pub noted_empty :
      (round : ℕ) (b : Bag) (block slot : ℕ)
      → let c : Bag = noted size threads tid round b block in
        c.items block slot ≡ c.sentinel → b.items block slot ≡ b.sentinel
  unfolding notify_start
  noted_empty round b block slot =
      if_elim (λ (c : Bag). c.items block slot ≡ c.sentinel → b.items block slot ≡ b.sentinel)
        (round == 1) (λ _ h. h) (λ _ h. h)

-- The slots that the scan has passed hold no item.
pub first_taken-before :
    (b : Bag) (block n head slot : ℕ)
    → head ≤ slot
    → slot < first_taken b block n head
    → b.items block slot ≡ b.sentinel
unfolding first_taken
first_taken-before b block zero head slot h k = absurd (omega arith)
first_taken-before b block (suc n) head slot h k = elim (ℕ_discrete head slot) [
  | yes at ↦ subst (λ m. b.items block m ≡ b.sentinel) at (ground (arith, k))
  | no ne ↦ first_taken-before b block n (head + 1) slot (omega arith) (ground (arith, k, h))
]
