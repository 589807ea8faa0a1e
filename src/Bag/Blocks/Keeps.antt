-- ===== src/Bag/Blocks/Keeps.antt =====
-- The helpers of sbag_hrc.h that leave every item where it is.
use temp_data_structure_benc.Prelude.{ℕ, ◌≡◌, refl, ◌∙◌, arith}
use temp_data_structure_benc.Bag.State.{Bag}
use temp_data_structure_benc.Bag.Blocks.{notify_all, notify_start, mark1_block}

-- The items, the allocated blocks and the sentinel are the same.
pub record Keeps (b b' : Bag) : Type 0 where
  pub items : b'.items ≡ b.items
  pub used : b'.used ≡ b.used
  pub sentinel : b'.sentinel ≡ b.sentinel

pub Keeps-refl : (b : Bag) → Keeps b b
Keeps-refl b = record { items = refl; used = refl; sentinel = refl }

pub Keeps-trans : {a b c : Bag} → Keeps a b → Keeps b c → Keeps a c
Keeps-trans h k = record {
  items = k.items ∙ h.items;
  used = k.used ∙ h.used;
  sentinel = k.sentinel ∙ h.sentinel;
}

pub notify_all-Keeps : (b : Bag) (block : ℕ) → Keeps b (notify_all b block)
unfolding notify_all
notify_all-Keeps b block = record { items = refl; used = refl; sentinel = refl }

pub notify_start-Keeps : (b : Bag) (block id : ℕ) → Keeps b (notify_start b block id)
unfolding notify_start
notify_start-Keeps b block id = record { items = refl; used = refl; sentinel = refl }

pub mark1_block-Keeps : (b : Bag) (block : ℕ) → Keeps b (mark1_block b block)
unfolding mark1_block
mark1_block-Keeps b block = ground arith
