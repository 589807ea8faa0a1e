-- ===== src/Bag/Remove/Ready.antt =====
-- A bag and the data of its threads while none of them is at work.
use temp_data_structure_benc.Prelude.{
  ℕ, ◌≤◌, ◌<◌, ◌≡◌, ◌≢◌, ◌⊎◌, ◌∙◌, inl, inr, refl, true, List, [], ◌∷◌, Array, arith, ◌==◌,
  if◌then◌else◌, if_elim, ap,
}
use temp_data_structure_benc.Prelude.Sort.{contains}
use temp_data_structure_benc.Bag.State.{deleted_link, Tls, Bag, set_item}
use temp_data_structure_benc.Bag.Remove.Lists.{Walks, Simple}

-- The blocks of a bag between two calls: for each thread a list, no block twice, no mark on a link.
pub record Valid (b : Bag) (ls : Array (List ℕ)) : Type 0 where
  pub walks : (i : ℕ) → Walks b.next (b.heads i) (ls i)
  pub simple : (i : ℕ) → Simple (ls i)
  pub apart : (i j n : ℕ) → i ≢ j → contains (ls i) n ≡ true → contains (ls j) n ≡ true → ⊥
  pub below : (i n : ℕ) → contains (ls i) n ≡ true → n ≤ b.used

-- What a thread may remember of a list: nothing, a block of it, or one that has been cut out.
abbrev pub IsRef : Bag → List ℕ → ℕ → Type 0
IsRef b ns p = (p ≡ 0) ⊎ (contains ns p ≡ true) ⊎ ((b.next p ≡ deleted_link) × (p ≤ b.used))

-- The blocks behind a block of the list.
abbrev pub tail_after : ℕ → List ℕ → List ℕ
tail_after p [] = []
tail_after p (n ∷ ns) = let rest = tail_after p ns in if n == p then ns else rest

-- If the block is behind `prev` in the list, its slots below `head` hold no item.
abbrev pub IsSwept : Bag → List ℕ → ℕ → ℕ → ℕ → Type 0
IsSwept b ns block prev head =
    contains (tail_after prev ns) block ≡ true
    → (slot : ℕ) → slot < head
    → b.items block slot ≡ b.sentinel

module _ (size : ℕ) where
  -- No slot of the block holds an item.
  abbrev pub Clean : Bag → ℕ → Type 0
  Clean b n = (slot : ℕ) → slot < size → b.items n slot ≡ b.sentinel

  -- The first block of the thread `i` has no item from the slot `head` on.
  abbrev pub IsFree : Bag → ℕ → ℕ → Type 0
  IsFree b i head =
      b.heads i ≢ 0 → (slot : ℕ) → head ≤ slot → slot < size → b.items (b.heads i) slot ≡ b.sentinel

  -- The thread's block is the first of its list, with no item from the thread's position on. That is
  -- `size` if the list is empty.
  abbrev pub Mine : Bag → Tls → Type 0
  Mine b t =
      (t.thread_block ≡ b.heads t.thread_id)
      × (t.thread_head ≤ size)
      × IsFree b t.thread_id t.thread_head
      × ((b.heads t.thread_id ≢ 0) ⊎ (t.thread_head ≡ size))

  module _ (threads : ℕ) where
    -- The position of a search.
    abbrev pub Place : Bag → Array (List ℕ) → ℕ → ℕ → ℕ → ℕ → Type 0
    Place b ls index block prev head =
        (index < threads)
        × IsRef b (ls index) block
        × IsRef b (ls index) prev
        × (head ≤ size)
        × IsSwept b (ls index) block prev head

    pub record Ready (b : Bag) (ls : Array (List ℕ)) (t : Tls) : Type 0 where
      pub valid : Valid b ls
      pub mine : Mine b t
      pub place : Place b ls t.steal_index t.steal_block t.steal_prev t.steal_head

    -- The block stands in a list or holds no item.
    abbrev pub Holds : Bag → Array (List ℕ) → ℕ → Type 0
    Holds b ls n = ((i : ℕ) × (i < threads) × (contains (ls i) n ≡ true)) ⊎ Clean b n

    -- What a call of the thread `tid` leaves to the other threads.
    pub record Leaves (tid : ℕ) (b : Bag) (ls : Array (List ℕ)) (c : Bag) (ls' : Array (List ℕ))
        : Type 0 where
      pub places :
          (index block prev head : ℕ)
          → Place b ls index block prev head
          → Place c ls' index block prev head
      pub heads : (i : ℕ) → i ≢ tid → c.heads i ≡ b.heads i
      pub free : (i head : ℕ) → i ≢ tid → IsFree b i head → IsFree c i head
      pub holds : (n : ℕ) → Holds b ls n → Holds c ls' n

    pub Leaves-refl : (tid : ℕ) (b : Bag) (ls : Array (List ℕ)) → Leaves tid b ls b ls
    Leaves-refl tid b ls = record {
      places = λ i k p h x. x;
      heads = λ i ne. refl;
      free = λ i h ne x. x;
      holds = λ n x. x;
    }

    pub Leaves-trans :
        {tid : ℕ} {b c d : Bag} {l m n : Array (List ℕ)}
        → Leaves tid b l c m
        → Leaves tid c m d n
        → Leaves tid b l d n
    Leaves-trans f g = record {
      places = λ i k p h x. g.places i k p h (f.places i k p h x);
      heads = λ i ne. g.heads i ne ∙ f.heads i ne;
      free = λ i h ne x. g.free i h ne (f.free i h ne x);
      holds = λ n x. g.holds n (f.holds n x);
    }

    -- An item is taken out of a slot.
    module _ (b : Bag) (ls : Array (List ℕ)) (block slot : ℕ) where
      abbrev pub taken_bag : Bag
      taken_bag = record b { items = set_item b.items block slot b.sentinel }

      pub still_empty : (n k : ℕ) → b.items n k ≡ b.sentinel → taken_bag.items n k ≡ b.sentinel
      still_empty n k e =
          if_elim (λ (f : Array ℕ). f k ≡ b.sentinel) (block == n)
            (λ same.
              if_elim (λ v. v ≡ b.sentinel) (slot == k) (λ _. refl)
                (λ _. ap (λ m. b.items m k) {x = block} {y = n} (ground (arith, same)) ∙ e))
            (λ _. e)

      pub taken-Leaves : (tid : ℕ) → Leaves tid b ls taken_bag ls
      taken-Leaves tid = record {
        places =
            λ i m p h x. (x.0, x.1, x.2, x.3, λ behind k lt. still_empty m k (x.4 behind k lt));
        heads = λ i ne. refl;
        free = λ i h ne x nz k le lt. still_empty (b.heads i) k (x nz k le lt);
        holds = λ n x. elim x [
          | inl listed ↦ inl listed
          | inr clean ↦ inr (λ k lt. still_empty n k (clean k lt))
        ];
      }

      pub taken-Ready : (t : Tls) → Ready b ls t → Ready taken_bag ls t
      taken-Ready t r = record {
        valid = record {
          walks = r.valid.walks;
          simple = r.valid.simple;
          apart = r.valid.apart;
          below = r.valid.below;
        };
        mine = (
          r.mine.0,
          r.mine.1,
          λ nz k le lt. still_empty (b.heads t.thread_id) k (r.mine.2 nz k le lt),
          r.mine.3,
        );
        place =
            (taken-Leaves 0).places t.steal_index t.steal_block t.steal_prev t.steal_head r.place;
      }
