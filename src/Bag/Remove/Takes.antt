-- ===== src/Bag/Remove/Takes.antt =====
-- What `tryRemoveAny` of sbag_hrc.h does to the items, however it ends.
use temp_data_structure_benc.Prelude.{
  ℕ, zero, suc, ◌+◌, ◌-◌, ◌≤◌, ◌≢◌, refl, if◌then◌else◌, false, arith, if_elim, ◌==◌, ◌||◌, ◌&&◌,
  ltb, leb,
}
use temp_data_structure_benc.Bag.State.{Tls, Bag}
use temp_data_structure_benc.Bag.Blocks.{notify_start, mark1_block}
use temp_data_structure_benc.Bag.Blocks.Keeps.{
  Keeps, Keeps-refl, notify_start-Keeps, mark1_block-Keeps,
}
use temp_data_structure_benc.Bag.Blocks.Linked.{
  IsLinked, mark1_block-IsLinked, notify_start-IsLinked,
}
use temp_data_structure_benc.Bag.Remove.Stays.{FoundStays, next_steal_block-Stays, unlink_own-Stays}
use temp_data_structure_benc.Bag.Remove.{
  Outcome, Found, first_taken, steal_from, steal_next, retry, settle, try_steal_block, steal_rounds,
  remove_own, try_remove_any,
}
use temp_data_structure_benc.Bag.Remove.Effects.{
  IsInOrder, Stays-IsInOrder, Effect, Keeps-Takes, Keeps-Effect, first_taken_lem, first_taken-Takes,
}

module _ (size threads : ℕ) where
  steal_from-Effect :
      (round : ℕ) (b : Bag) (t : Tls) (block head : ℕ)
      → IsInOrder size b t
      → block ≤ b.used
      → head ≤ size
      → Effect size b (steal_from size threads round b t block head)
  unfolding steal_from
  steal_from-Effect round b t block head o le h =
      let noted = if round == 1 then notify_start b block t.thread_id else b in
      let slot = first_taken noted block (size - head) head in
      let kept : Keeps b noted × IsLinked noted =
        if_elim (λ c. Keeps b c × IsLinked c) (round == 1)
          (λ _. (
            notify_start-Keeps b block t.thread_id,
            notify_start-IsLinked o.linked block t.thread_id,
          ))
          (λ _. (Keeps-refl b, o.linked)) in
      let P : Outcome → Type 0 = Effect size b in
      if_elim P (block == 0)
        (λ _. Effect.empty (Keeps-refl b) (record {
          linked = o.linked;
          thread_block = o.thread_block;
          thread_head = o.thread_head;
          steal_block = omega arith;
          steal_head = omega arith;
        }))
        (λ some_block.
          if_elim P (slot == size)
            (λ end. Effect.empty kept.0 (record {
              linked = kept.1;
              thread_block = omega (arith, o.thread_block, kept.0.used);
              thread_head = o.thread_head;
              steal_block = omega (arith, o.steal_block, kept.0.used);
              steal_head = ground arith;
            }))
            (λ found.
              Effect.removed
                (Keeps-Takes kept.0 (
                  first_taken-Takes size noted block head (ground arith)
                    (omega (arith, le, kept.0.used)) h (ground arith)))
                (record {
                  linked = record { heads = kept.1.heads; links = kept.1.links };
                  thread_block = omega (arith, o.thread_block, kept.0.used);
                  thread_head = o.thread_head;
                  steal_block = omega (arith, o.steal_block, kept.0.used);
                  steal_head = omega (arith, first_taken_lem noted block (size - head) head);
                })))

  steal_next-Effect :
      (round : ℕ) {b : Bag} {t : Tls} {f : Found}
      → IsInOrder size b t
      → FoundStays b t f
      → Effect size b (steal_next size threads round f)
  unfolding steal_next
  steal_next-Effect round o (FoundStays.block_at {block = block} {b' = b'} {t' = t'} le h) =
      let p = Stays-IsInOrder o h in
      let within : block ≤ b'.used = omega (arith, le, h.keeps.used) in
      Keeps-Effect h.keeps (
        steal_from-Effect round b' (record t' { steal_block = block }) block 0
          (record {
            linked = p.linked;
            thread_block = p.thread_block;
            thread_head = p.thread_head;
            steal_block = within;
            steal_head = p.steal_head;
          })
          within (omega arith))
  steal_next-Effect round o (FoundStays.null_deref h) =
      Effect.null_deref h.keeps (Stays-IsInOrder o h)
  steal_next-Effect round o (FoundStays.unfinished h) =
      Effect.unfinished h.keeps (Stays-IsInOrder o h)

  try_steal_block-Effect :
      (fuel round : ℕ) (b : Bag) (t : Tls)
      → IsInOrder size b t
      → Effect size b (try_steal_block size threads fuel round b t)
  unfolding try_steal_block
  try_steal_block-Effect fuel round b t o =
      let t' : Tls =
        if t.steal_block == 0
        then record t { steal_block = b.heads t.steal_index; steal_head = 0; found_add = false }
        else record t { found_add = false } in
      let p : IsInOrder size b t' =
        if_elim (IsInOrder size b) (t.steal_block == 0)
          (λ _. record {
            linked = o.linked;
            thread_block = o.thread_block;
            thread_head = o.thread_head;
            steal_block = o.linked.heads t.steal_index;
            steal_head = omega arith;
          })
          (λ _. record {
            linked = o.linked;
            thread_block = o.thread_block;
            thread_head = o.thread_head;
            steal_block = o.steal_block;
            steal_head = o.steal_head;
          }) in
      if_elim (Effect size b) (t'.steal_head == size)
        (λ _.
          steal_next-Effect round p
            (next_steal_block-Stays fuel t'.steal_block b t' p.linked p.steal_block))
        (λ _.
          steal_from-Effect round b t' t'.steal_block t'.steal_head p p.steal_block p.steal_head)

  retry-Effect :
      (loop : ℕ → ℕ → Bag → Tls → Outcome)
      → ((round i : ℕ) (b : Bag) (t : Tls) → IsInOrder size b t → Effect size b (loop round i b t))
      → (round i : ℕ) {b : Bag} {o : Outcome} → Effect size b o
      → Effect size b (retry size threads loop round i o)
  unfolding retry
  retry-Effect loop h round i {b} (Effect.empty {b' = b'} {t = t} k l) =
      let round' = if t.found_add then 0 else round in
      let i' = if t.found_add then 0 else if t.steal_block == 0 then i + 1 else i in
      if_elim (Effect size b) (ltb i' threads) (λ _. Keeps-Effect k (h round' i' b' t l))
        (λ _.
          if_elim (Effect size b) (leb (round' + 1) threads)
            (λ _. Keeps-Effect k (h (round' + 1) 0 b' t l)) (λ _. Effect.empty k l))
  retry-Effect loop h round i (Effect.removed k l) = Effect.removed k l
  retry-Effect loop h round i (Effect.null_deref k l) = Effect.null_deref k l
  retry-Effect loop h round i (Effect.unfinished k l) = Effect.unfinished k l

  steal_rounds-Effect :
      (walk fuel round i : ℕ) (b : Bag) (t : Tls)
      → IsInOrder size b t
      → Effect size b (steal_rounds size threads walk fuel round i b t)
  unfolding steal_rounds
  steal_rounds-Effect walk zero round i b t h = Effect.unfinished (Keeps-refl b) h
  steal_rounds-Effect walk (suc fuel) round i b t h =
      retry-Effect (steal_rounds size threads walk fuel) (steal_rounds-Effect walk fuel) round i
        (try_steal_block-Effect walk round b t h)

  settle-Effect :
      (loop : ℕ → ℕ → Bag → Tls → Outcome)
      → ((above block : ℕ) (b : Bag) (t : Tls)
          → above ≤ size
          → block ≤ b.used
          → IsInOrder size b t
          → Effect size b (loop above block b t))
      → {b : Bag} {t : Tls} {f : Found} → IsInOrder size b t
      → FoundStays b t f
      → Effect size b (settle size threads loop f)
  unfolding settle
  settle-Effect loop h o (FoundStays.block_at {block = block} {b' = b'} {t' = t'} le k) =
      let p = Stays-IsInOrder o k in
      let within : block ≤ b'.used = omega (arith, le, k.keeps.used) in
      Keeps-Effect k.keeps (
        h size block b' (record t' { thread_block = block; thread_head = size }) (omega arith)
          within
          (record {
            linked = p.linked;
            thread_block = within;
            thread_head = omega arith;
            steal_block = p.steal_block;
            steal_head = p.steal_head;
          }))
  settle-Effect loop h o (FoundStays.null_deref k) = Effect.null_deref k.keeps (Stays-IsInOrder o k)
  settle-Effect loop h o (FoundStays.unfinished k) = Effect.unfinished k.keeps (Stays-IsInOrder o k)

  remove_own-Effect :
      (walk fuel above block : ℕ) (b : Bag) (t : Tls)
      → above ≤ size
      → block ≤ b.used
      → IsInOrder size b t
      → Effect size b (remove_own size threads walk fuel above block b t)
  unfolding remove_own
  remove_own-Effect walk zero above block b t h le o = Effect.unfinished (Keeps-refl b) o
  remove_own-Effect walk (suc fuel) above block b t h le o =
      let P : Outcome → Type 0 = Effect size b in
      let marked : Bag = mark1_block b block in
      let kept : Keeps b marked = mark1_block-Keeps b block in
      if_elim P (block == 0 || above == 0 && (b.next block).ptr == 0)
        (λ _. steal_rounds-Effect walk walk 0 0 b t o)
        (λ some_block.
          let nz : block ≢ 0 = ground (arith, some_block) in
          if_elim P (above == 0)
            (λ _.
              let linked : IsLinked marked = mark1_block-IsLinked o.linked block nz le in
              Keeps-Effect kept (
                settle-Effect (remove_own size threads walk fuel) (remove_own-Effect walk fuel)
                  (record {
                    linked = linked;
                    thread_block = omega (arith, o.thread_block, kept.used);
                    thread_head = o.thread_head;
                    steal_block = omega (arith, o.steal_block, kept.used);
                    steal_head = o.steal_head;
                  })
                  (unlink_own-Stays walk block marked t linked (omega (arith, le, kept.used)))))
            (λ above_zero.
              if_elim P (b.items block (above - 1) == b.sentinel)
                (λ _. remove_own-Effect walk fuel (above - 1) block b t (omega arith) le o)
                (λ taken.
                  Effect.removed
                    (record {
                      block = block;
                      slot = above - 1;
                      allocated = (nz, le);
                      in_range = ground arith;
                      held = refl;
                      proper = ground arith;
                      items = refl;
                      used = refl;
                      sentinel = refl;
                    })
                    (record {
                      linked = record { heads = o.linked.heads; links = o.linked.links };
                      thread_block = o.thread_block;
                      thread_head = omega arith;
                      steal_block = o.steal_block;
                      steal_head = o.steal_head;
                    }))))

  -- However `tryRemoveAny` ends: if it hands out an item, that item stood in a slot of a block that
  -- has been allocated, was not the sentinel, and this slot alone changes, to the sentinel;
  -- otherwise every slot of every block keeps its content. Before the call the thread's two blocks,
  -- the heads of the lists and the links of the allocated blocks must be NULL or allocated, and the
  -- thread's two positions must lie within a block; all this holds after the call too.
  pub try_remove_any-Effect :
      (fuel : ℕ) (b : Bag) (t : Tls)
      → IsInOrder size b t
      → Effect size b (try_remove_any size threads fuel b t)
  unfolding try_remove_any
  try_remove_any-Effect fuel b t o =
      remove_own-Effect fuel fuel t.thread_head t.thread_block b t o.thread_head o.thread_block o
