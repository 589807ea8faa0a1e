-- ===== src/Bag/Remove/Fuel.antt =====
-- More fuel does not change how `tryRemoveAny` ends.
use temp_data_structure_benc.Prelude.{
  ℕ, zero, suc, ◌+◌, ◌-◌, ◌≤◌, ◌≡◌, ◌⊎◌, update, inl, inr, refl, ap, Bool, true, false, ◌&&◌, ◌||◌,
  not, arith, ◌==◌, ltb, leb, if◌then◌else◌,
}
use mathlib.Core.Path.{subst}
use temp_data_structure_benc.Bag.State.{Link, deleted_link, Tls, Bag, set_next}
use temp_data_structure_benc.Bag.Blocks.{mark1_block}
use temp_data_structure_benc.Bag.Remove.{
  Outcome, Found, Visit, mark_next, notify_next, follow, next_steal_block, unlink_own, steal_next,
  try_steal_block, retry, steal_rounds, settle, remove_own, try_remove_any,
}

-- The loop has run out of fuel.
abbrev pub IsUnfinished : Outcome → Type 0
IsUnfinished (Outcome.unfinished b t) = ℕ
IsUnfinished (Outcome.removed item b t) = ⊥
IsUnfinished (Outcome.empty b t) = ⊥
IsUnfinished (Outcome.null_deref b t) = ⊥

abbrev IsLost : Found → Type 0
IsLost (Found.unfinished b t) = ℕ
IsLost (Found.block_at block b t) = ⊥
IsLost (Found.null_deref b t) = ⊥

-- The second is what the first becomes with more fuel.
abbrev pub Grows : Outcome → Outcome → Type 0
Grows o p = IsUnfinished o ⊎ (o ≡ p)

abbrev Finds : Found → Found → Type 0
Finds f g = IsLost f ⊎ (f ≡ g)

if-Finds :
    (c : Bool) {f g f' g' : Found}
    → Finds f f'
    → Finds g g'
    → Finds (if c then f else g) (if c then f' else g')
if-Finds true h k = h
if-Finds false h k = k

if-Grows :
    (c : Bool) {o p o' p' : Outcome}
    → Grows o o'
    → Grows p p'
    → Grows (if c then o else p) (if c then o' else p')
if-Grows true h k = h
if-Grows false h k = k

follow-Finds :
    (loop loop' : ℕ → Bag → Tls → Found)
    → ((block : ℕ) (b : Bag) (t : Tls) → Finds (loop block b t) (loop' block b t))
    → (block next : ℕ) (v : Visit) → Finds (follow loop block next v) (follow loop' block next v)
unfolding follow
follow-Finds loop loop' h block next (Visit.again block' b t) = h block' b t
follow-Finds loop loop' h block next (Visit.onward b t) =
    if-Finds (block == t.steal_block || next == t.steal_block) (inr refl) (h next b t)

next_steal_block-Finds :
    (fuel fuel' : ℕ)
    → fuel ≤ fuel'
    → (block : ℕ) (b : Bag) (t : Tls)
    → Finds (next_steal_block fuel block b t) (next_steal_block fuel' block b t)
unfolding next_steal_block
next_steal_block-Finds zero fuel' le block b t = inl 0
next_steal_block-Finds (suc fuel) zero le block b t = absurd (omega arith)
next_steal_block-Finds (suc fuel) (suc fuel') le block b t = if-Finds (block == 0) (inr refl) (
    if-Finds ((b.next block).mark2 && (b.next block).ptr == 0) (inr refl) (
      follow-Finds (next_steal_block fuel) (next_steal_block fuel')
        (next_steal_block-Finds fuel fuel' (omega arith)) block (b.next block).ptr _))

unlink_own-Finds :
    (fuel fuel' : ℕ)
    → fuel ≤ fuel'
    → (block : ℕ) (b : Bag) (t : Tls)
    → Finds (unlink_own fuel block b t) (unlink_own fuel' block b t)
unfolding unlink_own
unlink_own-Finds zero fuel' le block b t = inl 0
unlink_own-Finds (suc fuel) zero le block b t = absurd (omega arith)
unlink_own-Finds (suc fuel) (suc fuel') le block b t =
    let link : Link = b.next block in
    let b' : Bag = mark_next b link in
    let b'' : Bag = notify_next b' link in
    if-Finds (block == 0 || link.mark2 && link.ptr == 0) (inr refl) (
      if-Finds (not link.mark1) (inr refl) (
        if-Finds (b''.heads t.thread_id == block)
          (unlink_own-Finds fuel fuel' (omega arith) link.ptr
            (set_next (record b'' { heads = update b''.heads t.thread_id link.ptr }) block
              deleted_link)
            t)
          (unlink_own-Finds fuel fuel' (omega arith) (b''.heads t.thread_id) b'' t)))

module _ (size threads : ℕ) where
  steal_next-Grows :
      (round : ℕ) (f g : Found)
      → Finds f g
      → Grows (steal_next size threads round f) (steal_next size threads round g)
  unfolding steal_next
  steal_next-Grows round f g (inr e) = inr (ap (steal_next size threads round) e)
  steal_next-Grows round (Found.unfinished b t) g (inl l) = inl 0
  steal_next-Grows round (Found.block_at block b t) g (inl l) = absurd l
  steal_next-Grows round (Found.null_deref b t) g (inl l) = absurd l

  settle-Grows :
      (loop loop' : ℕ → ℕ → Bag → Tls → Outcome)
      → ((above block : ℕ) (b : Bag) (t : Tls)
          → Grows (loop above block b t) (loop' above block b t))
      → (f g : Found) → Finds f g
      → Grows (settle size threads loop f) (settle size threads loop' g)
  unfolding settle
  settle-Grows loop loop' h (Found.unfinished b t) g k = inl 0
  settle-Grows loop loop' h (Found.block_at block b t) g (inl l) = absurd l
  settle-Grows loop loop' h (Found.null_deref b t) g (inl l) = absurd l
  settle-Grows loop loop' h (Found.block_at block b t) g (inr e) =
      subst
        (λ x.
          Grows (settle size threads loop (Found.block_at block b t)) (settle size threads loop' x))
        e (h size block b (record t { thread_block = block; thread_head = size }))
  settle-Grows loop loop' h (Found.null_deref b t) g (inr e) =
      inr (ap (settle size threads loop') e)

  retry-Grows :
      (loop loop' : ℕ → ℕ → Bag → Tls → Outcome)
      → ((round i : ℕ) (b : Bag) (t : Tls) → Grows (loop round i b t) (loop' round i b t))
      → (round i : ℕ) (o p : Outcome) → Grows o p
      → Grows (retry size threads loop round i o) (retry size threads loop' round i p)
  unfolding retry
  retry-Grows loop loop' h round i (Outcome.unfinished b t) p k = inl 0
  retry-Grows loop loop' h round i (Outcome.removed item b t) p (inl l) = absurd l
  retry-Grows loop loop' h round i (Outcome.null_deref b t) p (inl l) = absurd l
  retry-Grows loop loop' h round i (Outcome.empty b t) p (inl l) = absurd l
  retry-Grows loop loop' h round i (Outcome.removed item b t) p (inr e) =
      inr (ap (retry size threads loop' round i) e)
  retry-Grows loop loop' h round i (Outcome.null_deref b t) p (inr e) =
      inr (ap (retry size threads loop' round i) e)
  retry-Grows loop loop' h round i (Outcome.empty b t) p (inr e) =
      let round' : ℕ = if t.found_add then 0 else round in
      let i' : ℕ = if t.found_add then 0 else if t.steal_block == 0 then i + 1 else i in
      subst
        (λ x.
          Grows (retry size threads loop round i (Outcome.empty b t))
            (retry size threads loop' round i x))
        e
        (if-Grows (ltb i' threads) (h round' i' b t)
          (if-Grows (leb (round' + 1) threads) (h (round' + 1) 0 b t) (inr refl)))

  try_steal_block-Grows :
      (walk walk' : ℕ)
      → walk ≤ walk'
      → (round : ℕ) (b : Bag) (t : Tls)
      → Grows
          (try_steal_block size threads walk round b t)
          (try_steal_block size threads walk' round b t)
  unfolding try_steal_block
  try_steal_block-Grows walk walk' le round b t =
      let t' : Tls =
        if t.steal_block == 0
        then record t { steal_block = b.heads t.steal_index; steal_head = 0; found_add = false }
        else record t { found_add = false } in
      if-Grows (t'.steal_head == size)
        (steal_next-Grows round (next_steal_block walk t'.steal_block b t')
          (next_steal_block walk' t'.steal_block b t')
          (next_steal_block-Finds walk walk' le t'.steal_block b t'))
        (inr refl)

  steal_rounds-Grows :
      (walk walk' fuel fuel' : ℕ)
      → walk ≤ walk'
      → fuel ≤ fuel'
      → (round i : ℕ) (b : Bag) (t : Tls)
      → Grows
          (steal_rounds size threads walk fuel round i b t)
          (steal_rounds size threads walk' fuel' round i b t)
  unfolding steal_rounds
  steal_rounds-Grows walk walk' zero fuel' k le round i b t = inl 0
  steal_rounds-Grows walk walk' (suc fuel) zero k le round i b t = absurd (omega arith)
  steal_rounds-Grows walk walk' (suc fuel) (suc fuel') k le round i b t =
      retry-Grows (steal_rounds size threads walk fuel) (steal_rounds size threads walk' fuel')
        (steal_rounds-Grows walk walk' fuel fuel' k (omega arith)) round i
        (try_steal_block size threads walk round b t) (try_steal_block size threads walk' round b t)
        (try_steal_block-Grows walk walk' k round b t)

  remove_own-Grows :
      (walk walk' fuel fuel' : ℕ)
      → walk ≤ walk'
      → fuel ≤ fuel'
      → (above block : ℕ) (b : Bag) (t : Tls)
      → Grows
          (remove_own size threads walk fuel above block b t)
          (remove_own size threads walk' fuel' above block b t)
  unfolding remove_own
  remove_own-Grows walk walk' zero fuel' k le above block b t = inl 0
  remove_own-Grows walk walk' (suc fuel) zero k le above block b t = absurd (omega arith)
  remove_own-Grows walk walk' (suc fuel) (suc fuel') k le above block b t =
      if-Grows (block == 0 || above == 0 && (b.next block).ptr == 0)
        (steal_rounds-Grows walk walk' walk walk' k k 0 0 b t)
        (if-Grows (above == 0)
          (settle-Grows (remove_own size threads walk fuel) (remove_own size threads walk' fuel')
            (remove_own-Grows walk walk' fuel fuel' k (omega arith))
            (unlink_own walk block (mark1_block b block) t)
            (unlink_own walk' block (mark1_block b block) t)
            (unlink_own-Finds walk walk' k block (mark1_block b block) t))
          (if-Grows (b.items block (above - 1) == b.sentinel)
            (remove_own-Grows walk walk' fuel fuel' k (omega arith) (above - 1) block b t)
            (inr refl)))

  pub try_remove_any-Grows :
      (fuel fuel' : ℕ)
      → fuel ≤ fuel'
      → (b : Bag) (t : Tls)
      → Grows (try_remove_any size threads fuel b t) (try_remove_any size threads fuel' b t)
  unfolding try_remove_any
  try_remove_any-Grows fuel fuel' le b t =
      remove_own-Grows fuel fuel' fuel fuel' le le t.thread_head t.thread_block b t
