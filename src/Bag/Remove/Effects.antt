-- ===== src/Bag/Remove/Effects.antt =====
-- What a call of `tryRemoveAny` of sbag_hrc.h does to the items and to the thread's data.
use temp_data_structure_benc.Prelude.{
  ℕ, zero, suc, ◌+◌, ◌-◌, ◌≤◌, ◌<◌, ◌≡◌, ◌≢◌, refl, sym, ap, ap₂, ◌∙◌, ◌⊎◌, inl, Array, arith,
}
use temp_data_structure_benc.Bag.State.{Tls, Bag, set_item}
use temp_data_structure_benc.Bag.Blocks.Keeps.{Keeps, Keeps-trans}
use temp_data_structure_benc.Bag.Blocks.Linked.{IsLinked}
use temp_data_structure_benc.Bag.Remove.Stays.{Stays}
use temp_data_structure_benc.Bag.Remove.{Outcome, first_taken}

-- One item is taken: it stood in a slot of an allocated block, and only that slot has changed.
pub record Takes (size : ℕ) (b : Bag) (item : ℕ) (b' : Bag) : Type 0 where
  pub block : ℕ
  pub slot : ℕ
  pub allocated : (block ≢ 0) × (block ≤ b.used)
  pub in_range : slot < size
  pub held : b.items block slot ≡ item
  pub proper : item ≢ b.sentinel
  pub items : b'.items ≡ set_item b.items block slot b.sentinel
  pub used : b'.used ≡ b.used
  pub sentinel : b'.sentinel ≡ b.sentinel

pub Keeps-Takes :
    {size item : ℕ} {a b c : Bag} → Keeps a b → Takes size b item c → Takes size a item c
Keeps-Takes {a} {b} h k = record {
  block = k.block;
  slot = k.slot;
  allocated = (k.allocated.0, omega (arith, k.allocated.1, h.used));
  in_range = k.in_range;
  held = sym (ap (λ (f : Array (Array ℕ)). f k.block k.slot) h.items) ∙ k.held;
  proper = λ e. k.proper (e ∙ sym h.sentinel);
  items =
      k.items
      ∙ ap₂ (λ (f : Array (Array ℕ)) (s : ℕ). set_item f k.block k.slot s) h.items h.sentinel;
  used = k.used ∙ h.used;
  sentinel = k.sentinel ∙ h.sentinel;
}

-- The heads and links of the bag and the two blocks of the thread are NULL or allocated, and the two
-- positions of the thread lie within a block.
pub record IsInOrder (size : ℕ) (b : Bag) (t : Tls) : Type 0 where
  pub linked : IsLinked b
  pub thread_block : t.thread_block ≤ b.used
  pub thread_head : t.thread_head ≤ size
  pub steal_block : t.steal_block ≤ b.used
  pub steal_head : t.steal_head ≤ size

pub Stays-IsInOrder :
    {size : ℕ} {b c : Bag} {t u : Tls} → IsInOrder size b t → Stays b t c u → IsInOrder size c u
Stays-IsInOrder o k = record {
  linked = k.linked;
  thread_block = omega (arith, o.thread_block, k.thread_block, k.keeps.used);
  thread_head = omega (arith, o.thread_head, k.thread_head);
  steal_block = omega (arith, o.steal_block, k.steal_block, k.keeps.used);
  steal_head = omega (arith, o.steal_head, k.steal_head);
}

-- What a call has done to the items when it ends.
pub data Effect (size : ℕ) (b : Bag) : Outcome → Type 0 where
  removed :
      {item : ℕ} {b' : Bag} {t : Tls}
      → Takes size b item b'
      → IsInOrder size b' t
      → Effect size b (Outcome.removed item b' t)
  empty :
      {b' : Bag} {t : Tls} → Keeps b b' → IsInOrder size b' t → Effect size b (Outcome.empty b' t)
  null_deref :
      {b' : Bag} {t : Tls}
      → Keeps b b'
      → IsInOrder size b' t
      → Effect size b (Outcome.null_deref b' t)
  unfinished :
      {b' : Bag} {t : Tls}
      → Keeps b b'
      → IsInOrder size b' t
      → Effect size b (Outcome.unfinished b' t)

pub Keeps-Effect :
    {size : ℕ} {a b : Bag} {o : Outcome} → Keeps a b → Effect size b o → Effect size a o
Keeps-Effect h (Effect.removed k i) = Effect.removed (Keeps-Takes h k) i
Keeps-Effect h (Effect.empty k i) = Effect.empty (Keeps-trans h k) i
Keeps-Effect h (Effect.null_deref k i) = Effect.null_deref (Keeps-trans h k) i
Keeps-Effect h (Effect.unfinished k i) = Effect.unfinished (Keeps-trans h k) i

-- The scan stops behind the last slot, or at a slot with an item.
pub first_taken_lem :
    (b : Bag) (block n head : ℕ)
    → (first_taken b block n head ≡ head + n)
      ⊎ ((first_taken b block n head < head + n)
          × (b.items block (first_taken b block n head) ≢ b.sentinel))
unfolding first_taken
first_taken_lem b block zero head = inl (omega arith)
first_taken_lem b block (suc n) head = ground (arith, first_taken_lem b block n (head + 1))

-- Taking the item that the scan has found.
pub first_taken-Takes :
    (size : ℕ) (b : Bag) (block head : ℕ)
    → block ≢ 0
    → block ≤ b.used
    → head ≤ size
    → first_taken b block (size - head) head ≢ size
    → let slot = first_taken b block (size - head) head in
      Takes size b
        (b.items block slot)
        (record b { items = set_item b.items block slot b.sentinel })
first_taken-Takes size b block head nonzero le h found = record {
  block = block;
  slot = first_taken b block (size - head) head;
  allocated = (nonzero, le);
  in_range = omega (arith, first_taken_lem b block (size - head) head);
  held = refl;
  proper = ground (arith, first_taken_lem b block (size - head) head);
  items = refl;
  used = refl;
  sentinel = refl;
}
