-- ===== src/Bag/Blocks.antt =====
-- The helpers of sbag_hrc.h on one block, and `add`.
pub mod Keeps
pub mod Linked
pub mod Add
use Prim.Native.Nat.{bit_and, bit_or}
use temp_data_structure_benc.Prelude.{
  ℕ, zero, suc, ◌+◌, ◌-◌, ◌/◌, ◌%◌, ◌^◌, Bool, true, false, Option, none, some, Array, update, ◌==◌,
  ◌||◌, if◌then◌else◌,
}
use temp_data_structure_benc.Bag.State.{Link, plain, Tls, Bag, set_item}

-- NotifyAll: clears every word of the block's bit vector.
unfoldable pub notify_all : Bag → ℕ → Bag
notify_all b block = record b { notify = update b.notify block (λ _. 0) }

-- `1 << (Id % c_nWordSizeBits)` is a shift of an `int`, here as x86 does it: the count is taken
-- modulo 32, and the result is widened with its sign to the 64 bits of a `long`.
abbrev pub thread_bit : ℕ → ℕ
thread_bit thread_id = let k = thread_id % 64 % 32 in if k == 31 then 2 ^ 64 - 2 ^ 31 else 2 ^ k

unfoldable pub notify_start : Bag → ℕ → ℕ → Bag
notify_start b block thread_id =
    let w = thread_id / 64 in
    record b {
      notify = set_item b.notify block w (bit_or (b.notify block w) (thread_bit thread_id));
    }

unfoldable pub notify_check : Bag → ℕ → ℕ → Bool
notify_check b block thread_id =
    bit_and (b.notify block (thread_id / 64)) (thread_bit thread_id) == 0

-- Mark1Block: sets mark 1 of the block's link, unless it is null or marked.
unfoldable pub mark1_block : Bag → ℕ → Bag
mark1_block b block =
    let next = b.next block in
    if next.ptr == 0 || next.mark1
    then b
    else record b { next = update b.next block (record next { mark1 = true }) }

-- NewBlock, at the first address that is not in use.
unfoldable pub new_block : Bag → ℕ × Bag
new_block b =
    let block = b.used + 1 in
    (
      block,
      record b {
        next = update b.next block (plain 0);
        items = update b.items block (λ _. b.sentinel);
        notify = update b.notify block (λ _. 0);
        used = block;
      },
    )

module _ (size : ℕ) where
  -- The loop of `add`; `none` when the fuel runs out. What a `let` binds is computed when it is read.
  unfoldable pub add_loop : ℕ → Bag → Tls → ℕ → ℕ → ℕ → Option (Bag × Tls)
  add_loop zero b t item head block = none
  add_loop (suc fuel) b t item head block =
      let (fresh, b') = new_block b in
      let with_fresh =
        add_loop fuel
          (record b' {
            next = update b'.next fresh (plain block);
            heads = update b'.heads t.thread_id fresh;
          })
          (record t { thread_block = fresh }) item 0 fresh in
      let later = add_loop fuel b t item (head + 1) block in
      let cleared = notify_all b block in
      if head == size
      then with_fresh
      else if b.items block head == b.sentinel
      then some (
        record cleared { items = set_item cleared.items block head item },
        record t { thread_head = head + 1 },
      )
      else later

  unfoldable pub add : ℕ → Bag → Tls → ℕ → Option (Bag × Tls)
  add fuel b t item = add_loop fuel b t item t.thread_head t.thread_block
