-- ===== src/Bag/Remove/Stays.antt =====
-- The parts of `tryRemoveAny` of sbag_hrc.h that walk along the lists take no item.
use temp_data_structure_benc.Prelude.{
  ℕ, zero, suc, ◌≤◌, ◌≡◌, ◌≢◌, refl, ◌∙◌, true, false, arith, update, if_elim, ◌==◌, ◌||◌, ◌&&◌,
  not,
}
use temp_data_structure_benc.Bag.State.{Link, Tls, Bag, set_next, deleted_link, plain}
use temp_data_structure_benc.Bag.Blocks.Keeps.{
  Keeps, Keeps-refl, Keeps-trans, notify_all-Keeps, mark1_block-Keeps,
}
use temp_data_structure_benc.Bag.Blocks.Linked.{
  IsLinked, set_head-IsLinked, set_next-IsLinked, notify_all-IsLinked, mark1_block-IsLinked,
}
use temp_data_structure_benc.Bag.Remove.{
  Found, Visit, notify_next, mark_next, visit_end, visit_middle, follow, link_eq, next_steal_block,
  unlink_own,
}

-- The items, and where the thread stands in its blocks, are the same, and the addresses that the bag
-- stores are still NULL or allocated.
pub record Stays (b : Bag) (t : Tls) (b' : Bag) (t' : Tls) : Type 0 where
  pub keeps : Keeps b b'
  pub linked : IsLinked b'
  pub thread_block : t'.thread_block ≡ t.thread_block
  pub thread_head : t'.thread_head ≡ t.thread_head
  pub steal_block : t'.steal_block ≡ t.steal_block
  pub steal_head : t'.steal_head ≡ t.steal_head

Stays-trans :
    {b b' b'' : Bag} {t t' t'' : Tls} → Stays b t b' t' → Stays b' t' b'' t'' → Stays b t b'' t''
Stays-trans h k = record {
  keeps = Keeps-trans h.keeps k.keeps;
  linked = k.linked;
  thread_block = k.thread_block ∙ h.thread_block;
  thread_head = k.thread_head ∙ h.thread_head;
  steal_block = k.steal_block ∙ h.steal_block;
  steal_head = k.steal_head ∙ h.steal_head;
}

pub data FoundStays (b : Bag) (t : Tls) : Found → Type 0 where
  block_at :
      {block : ℕ} {b' : Bag} {t' : Tls}
      → block ≤ b.used
      → Stays b t b' t'
      → FoundStays b t (Found.block_at block b' t')
  null_deref : {b' : Bag} {t' : Tls} → Stays b t b' t' → FoundStays b t (Found.null_deref b' t')
  unfinished : {b' : Bag} {t' : Tls} → Stays b t b' t' → FoundStays b t (Found.unfinished b' t')

Stays-FoundStays :
    {b b' : Bag} {t t' : Tls} {f : Found} → Stays b t b' t' → FoundStays b' t' f → FoundStays b t f
Stays-FoundStays h (FoundStays.block_at le k) =
    FoundStays.block_at (omega (arith, le, h.keeps.used)) (Stays-trans h k)
Stays-FoundStays h (FoundStays.null_deref k) = FoundStays.null_deref (Stays-trans h k)
Stays-FoundStays h (FoundStays.unfinished k) = FoundStays.unfinished (Stays-trans h k)

data VisitStays (b : Bag) (t : Tls) : Visit → Type 0 where
  again :
      {block : ℕ} {b' : Bag} {t' : Tls}
      → block ≤ b.used
      → Stays b t b' t'
      → VisitStays b t (Visit.again block b' t')
  onward : {b' : Bag} {t' : Tls} → Stays b t b' t' → VisitStays b t (Visit.onward b' t')

Stays-VisitStays :
    {b b' : Bag} {t t' : Tls} {v : Visit} → Stays b t b' t' → VisitStays b' t' v → VisitStays b t v
Stays-VisitStays h (VisitStays.again le k) =
    VisitStays.again (omega (arith, le, h.keeps.used)) (Stays-trans h k)
Stays-VisitStays h (VisitStays.onward k) = VisitStays.onward (Stays-trans h k)

-- A step that leaves the items as they are, and of the thread's data all but `steal_prev`.
stays :
    {b b' : Bag} {t : Tls} {prev : ℕ}
    → Keeps b b'
    → IsLinked b'
    → Stays b t b' (record t { steal_prev = prev })
stays h l = record {
  keeps = h;
  linked = l;
  thread_block = refl;
  thread_head = refl;
  steal_block = refl;
  steal_head = refl;
}

-- The same, where no field of the thread's data changes.
unmoved : {b b' : Bag} (t : Tls) → Keeps b b' → IsLinked b' → Stays b t b' t
unmoved t h l = stays {t = t} {prev = t.steal_prev} h l

same_items :
    {b b' c : Bag}
    → Keeps b b'
    → c.items ≡ b'.items
    → c.used ≡ b'.used
    → c.sentinel ≡ b'.sentinel
    → Keeps b c
same_items h p q r = Keeps-trans h (record { items = p; used = q; sentinel = r })

notify_next-Keeps : (b : Bag) (next : Link) → Keeps b (notify_next b next)
unfolding notify_next
notify_next-Keeps b next = ground (arith, notify_all-Keeps b next.ptr)

notify_next-IsLinked : {b : Bag} (next : Link) → IsLinked b → IsLinked (notify_next b next)
unfolding notify_next
notify_next-IsLinked next l =
    if_elim IsLinked (next.ptr == 0) (λ _. l) (λ _. notify_all-IsLinked l next.ptr)

mark_next-Keeps : (b : Bag) (next : Link) → Keeps b (mark_next b next)
unfolding mark_next
mark_next-Keeps b next = ground (arith, mark1_block-Keeps b next.ptr)

-- `next` may be null only where it is not marked.
mark_next-IsLinked :
    {b : Bag} (next : Link)
    → IsLinked b
    → (next.mark2 && next.ptr == 0) ≡ false
    → next.ptr ≤ b.used
    → IsLinked (mark_next b next)
unfolding mark_next
mark_next-IsLinked next l nz le =
    if_elim IsLinked next.mark2 (λ m. mark1_block-IsLinked l next.ptr (ground (arith, nz, m)) le)
      (λ _. l)

module _ (b : Bag) (t : Tls) (block : ℕ) (next : Link) (l : IsLinked b) (nz : block ≢ 0)
    (at_block : block ≤ b.used) (at_next : next.ptr ≤ b.used) where
  visit_end-Stays : VisitStays b t (visit_end b t block next)
  unfolding visit_end
  visit_end-Stays =
      let noted : Keeps b (notify_next b next) = notify_next-Keeps b next in
      let linked : IsLinked (notify_next b next) = notify_next-IsLinked next l in
      let within : next.ptr ≤ (notify_next b next).used = omega (arith, noted.used, at_next) in
      if_elim (VisitStays b t) next.mark1
        (λ _.
          if_elim (VisitStays b t) ((notify_next b next).heads t.steal_index == block)
            (λ _. VisitStays.onward (
              unmoved t (same_items noted refl refl refl) (
                set_next-IsLinked (set_head-IsLinked linked t.steal_index next.ptr within) block
                  deleted_link (omega arith))))
            (λ _.
              VisitStays.again (omega (arith, linked.heads t.steal_index, noted.used))
                (stays noted linked)))
        (λ _. VisitStays.onward (stays (Keeps-refl b) l))

  visit_middle-Stays : VisitStays b t (visit_middle b t block next)
  unfolding visit_middle
  visit_middle-Stays =
      let marked = set_next b t.steal_prev (record { ptr = block; mark1 = false; mark2 = true }) in
      let again : VisitStays b t
          (Visit.again (b.heads t.steal_index) b (record t { steal_prev = 0 })) =
        VisitStays.again (l.heads t.steal_index) (stays (Keeps-refl b) l) in
      if_elim (VisitStays b t) next.mark1
        (λ _.
          if_elim (VisitStays b t)
            (link_eq (b.next t.steal_prev)
              (record { ptr = block; mark1 = false; mark2 = (b.next t.steal_prev).mark2 }))
            (λ _. VisitStays.onward (
              unmoved t (same_items (Keeps-refl b) refl refl refl) (
                set_next-IsLinked
                  (set_next-IsLinked l t.steal_prev
                    (record { ptr = next.ptr; mark1 = false; mark2 = next.mark2 }) at_next)
                  block deleted_link (omega arith))))
            (λ _. again))
        (λ _.
          if_elim (VisitStays b t) (block == t.steal_block)
            (λ _.
              if_elim (VisitStays b t) (link_eq (b.next t.steal_prev) (plain block))
                (λ _. VisitStays.again at_block (
                  unmoved t
                    (Keeps-trans (same_items (Keeps-refl b) refl refl refl)
                      (mark1_block-Keeps marked block))
                    (mark1_block-IsLinked
                      (set_next-IsLinked l t.steal_prev
                        (record { ptr = block; mark1 = false; mark2 = true }) at_block)
                      block nz at_block)))
                (λ _. again))
            (λ _. VisitStays.onward (stays (Keeps-refl b) l)))

follow-Stays :
    (loop : ℕ → Bag → Tls → Found)
    → ((block : ℕ) (b : Bag) (t : Tls)
        → IsLinked b
        → block ≤ b.used
        → FoundStays b t (loop block b t))
    → (block next : ℕ) {b : Bag} {t : Tls} {v : Visit} → next ≤ b.used
    → VisitStays b t v
    → FoundStays b t (follow loop block next v)
unfolding follow
follow-Stays loop h block next le (VisitStays.again {block = at} {b' = b'} {t' = t'} at_le k) =
    Stays-FoundStays k (h at b' t' k.linked (omega (arith, at_le, k.keeps.used)))
follow-Stays loop h block next {b} {t} le (VisitStays.onward {b' = b'} {t' = t'} k) =
    if_elim (FoundStays b t) (block == t'.steal_block || next == t'.steal_block)
      (λ _. FoundStays.block_at le k)
      (λ _. Stays-FoundStays k (h next b' t' k.linked (omega (arith, le, k.keeps.used))))

pub next_steal_block-Stays :
    (fuel block : ℕ) (b : Bag) (t : Tls)
    → IsLinked b
    → block ≤ b.used
    → FoundStays b t (next_steal_block fuel block b t)
unfolding next_steal_block
next_steal_block-Stays zero block b t l le = FoundStays.unfinished (unmoved t (Keeps-refl b) l)
next_steal_block-Stays (suc fuel) block b t l le =
    let next = b.next block in
    let marked = mark_next b next in
    let P : Found → Type 0 = FoundStays b t in
    let kept : Keeps b marked = mark_next-Keeps b next in
    if_elim P (block == 0)
      (λ _. FoundStays.block_at (l.heads t.steal_index) (unmoved t (Keeps-refl b) l))
      (λ some_block.
        let nz : block ≢ 0 = ground (arith, some_block) in
        let to : next.ptr ≤ b.used = l.links block nz le in
        if_elim P (next.mark2 && next.ptr == 0)
          (λ _. FoundStays.null_deref (unmoved t (Keeps-refl b) l))
          (λ not_null.
            let linked : IsLinked marked = mark_next-IsLinked next l not_null to in
            let start : Stays b t marked t = unmoved t kept linked in
            let at_block : block ≤ marked.used = omega (arith, kept.used, le) in
            let at_next : next.ptr ≤ marked.used = omega (arith, kept.used, to) in
            follow-Stays (next_steal_block fuel) (next_steal_block-Stays fuel) block next.ptr to (
              if_elim (VisitStays b t) (t.steal_prev == 0 || next.ptr == 0)
                (λ _.
                  Stays-VisitStays start
                    (visit_end-Stays marked t block next linked nz at_block at_next))
                (λ _.
                  Stays-VisitStays start
                    (visit_middle-Stays marked t block next linked nz at_block at_next)))))

pub unlink_own-Stays :
    (fuel block : ℕ) (b : Bag) (t : Tls)
    → IsLinked b
    → block ≤ b.used
    → FoundStays b t (unlink_own fuel block b t)
unfolding unlink_own
unlink_own-Stays zero block b t l le = FoundStays.unfinished (unmoved t (Keeps-refl b) l)
unlink_own-Stays (suc fuel) block b t l le =
    let next = b.next block in
    let marked = mark_next b next in
    let noted = notify_next marked next in
    let P : Found → Type 0 = FoundStays b t in
    let unlinked : Bag =
      set_next (record noted { heads = update noted.heads t.thread_id next.ptr }) block
        deleted_link in
    if_elim P (block == 0 || next.mark2 && next.ptr == 0)
      (λ _. FoundStays.null_deref (unmoved t (Keeps-refl b) l))
      (λ not_null.
        let to : next.ptr ≤ b.used = l.links block (ground (arith, not_null)) le in
        let marks : Keeps b marked = mark_next-Keeps b next in
        let linked : IsLinked marked = mark_next-IsLinked next l (ground (arith, not_null)) to in
        let kept : Keeps b noted = Keeps-trans marks (notify_next-Keeps marked next) in
        let linked' : IsLinked noted = notify_next-IsLinked next linked in
        let at_next : next.ptr ≤ noted.used = omega (arith, kept.used, to) in
        if_elim P (not next.mark1) (λ _. FoundStays.block_at le (unmoved t marks linked))
          (λ _.
            if_elim P (noted.heads t.thread_id == block)
              (λ _.
                let cut : IsLinked unlinked =
                  set_next-IsLinked (set_head-IsLinked linked' t.thread_id next.ptr at_next) block
                    deleted_link (omega arith) in
                Stays-FoundStays (unmoved t (same_items kept refl refl refl) cut)
                  (unlink_own-Stays fuel next.ptr unlinked t cut at_next))
              (λ _. Stays-FoundStays (unmoved t kept linked') (
                unlink_own-Stays fuel (noted.heads t.thread_id) noted t linked'
                  (linked'.heads t.thread_id)))))
