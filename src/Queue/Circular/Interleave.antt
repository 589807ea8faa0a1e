-- ===== src/Queue/Circular/Interleave.antt =====
-- What every interleaving of one producer and one consumer of a `CircularFifo` keeps.
use temp_data_structure_benc.Prelude.{
  ℕ, ◌+◌, ◌%◌, ◌^◌, ◌<◌, ◌≤◌, ◌≡◌, ◌≢◌, refl, sym, ap, ◌∙◌, [], ◌∷◌, ◌++◌, Array, arith, true,
  false, none, some, window-update, append_assoc, length,
}
use temp_data_structure_benc.Prelude.Ring.{mod-cases, ahead-lt, add-ahead, ahead-full, ahead-step}
use temp_data_structure_benc.Fifo
use temp_data_structure_benc.Fifo.{push-eq-true, pop-eq-some}
use temp_data_structure_benc.Queue.Circular.{CircularFifo}
use temp_data_structure_benc.Queue.Circular.Refine.{
  IsValid, count, contents, length-contents, increment-eq, contents-none, contents-get,
  contents-publish, new-IsValid,
}
use temp_data_structure_benc.Queue.Circular.Threads.{
  Producer, Consumer, System, start, Step, begin_push, push_full, push_room, write_item, end_push,
  pop_empty, begin_pop, read_item, end_pop, Reach, here, next,
}

module _ {A : Type 0} (size : ℕ) where
  -- What the producer's locals say of the shared object.
  abbrev pub ProducerIsSound : CircularFifo A → Producer A → Type 0
  ProducerIsSound q Producer.idle = Unit
  ProducerIsSound q (Producer.compare_head x n) = n ≡ (q.tail + 1) % (size + 1)
  ProducerIsSound q (Producer.store_item x n) = (n ≡ (q.tail + 1) % (size + 1)) × (n ≢ q.head)
  ProducerIsSound q (Producer.store_tail x n) =
      (n ≡ (q.tail + 1) % (size + 1)) × (n ≢ q.head) × (q.array q.tail ≡ x)

  abbrev pub ConsumerIsSound : CircularFifo A → Consumer A → Type 0
  ConsumerIsSound q Consumer.idle = Unit
  ConsumerIsSound q Consumer.load_item = q.head ≢ q.tail
  ConsumerIsSound q (Consumer.store_head x) = (q.head ≢ q.tail) × (q.array q.head ≡ x)

  pub record Inv (s : System A) : Type 0 where
    pub valid : IsValid size s.fifo
    pub producer : ProducerIsSound s.fifo s.producer
    pub consumer : ConsumerIsSound s.fifo s.consumer

module _ {A : Type 0} {size : ℕ} where
  pub start-Inv : (garbage : Array A) → size + 1 < 2 ^ 32 → Inv size (start garbage)
  start-Inv garbage h = record { valid = new-IsValid size garbage h; producer = tt; consumer = tt }

  pub Step-Inv : {s t : System A} → Step size s t → Inv size s → Inv size t
  Step-Inv {s} (begin_push x e) v =
      ground (arith, increment-eq size s.fifo.tail v.valid.small v.valid.tail_in)
  Step-Inv {s} (push_full x n e f) v = ground arith
  Step-Inv {s} (push_room x n e f) v = ground arith
  Step-Inv {s} (write_item x n e) v = ground arith
  Step-Inv {s} (end_push x n e) v = ground arith
  Step-Inv {s} (pop_empty e f) v = v
  Step-Inv {s} (begin_pop e f) v = ground arith
  Step-Inv {s} (read_item e) v = ground arith
  Step-Inv {s} (end_pop x e) v = ground (
    arith,
    increment-eq size s.fifo.head v.valid.small v.valid.head_in,
    mod-cases (size + 1) (s.fifo.head + 1),
    mod-cases (size + 1) (s.fifo.tail + 1),
  )

  -- What each step is to a bounded queue of the items between the indices: a call that takes effect
  -- at this step, or nothing.
  abbrev pub Linear : {s t : System A} → Step size s t → Type 0
  Linear {s} {t} (push_full x n e f) =
      Fifo.push size (contents size s.fifo) x ≡ (false, contents size t.fifo)
  Linear {s} {t} (end_push x n e) =
      Fifo.push size (contents size s.fifo) x ≡ (true, contents size t.fifo)
  Linear {s} {t} (pop_empty e f) =
      Fifo.pop (contents size s.fifo) ≡ ((false, none), contents size t.fifo)
  Linear {s} {t} (end_pop x e) =
      Fifo.pop (contents size s.fifo) ≡ ((true, some x), contents size t.fifo)
  Linear {s} {t} _ = contents size t.fifo ≡ contents size s.fifo

  Step-Linear : {s t : System A} (st : Step size s t) → Inv size s → Linear st
  unfolding Fifo.push Fifo.pop
  Step-Linear (begin_push x e) v = refl
  Step-Linear {s} (push_full x n e f) v =
      ground (arith, length-contents size s.fifo, ahead-full v.valid.head_in v.valid.tail_in)
  Step-Linear (push_room x n e f) v = refl
  Step-Linear {s} (write_item x n e) v =
      window-update (size + 1) s.fifo.array x (count size s.fifo) s.fifo.head s.fifo.tail
        v.valid.head_in (ahead-lt v.valid.head_in v.valid.tail_in)
        (sym (add-ahead v.valid.head_in v.valid.tail_in))
  Step-Linear {s} (end_push x n e) v = ground (
    arith,
    length-contents size s.fifo,
    contents-publish v.valid,
    ahead-step v.valid.head_in v.valid.tail_in,
    ahead-lt {c = size + 1} {h = s.fifo.head} {t = (s.fifo.tail + 1) % (size + 1)} v.valid.head_in
        (omega arith),
  )
  Step-Linear (pop_empty e f) v = rw (contents-none v.valid f)
  Step-Linear (begin_pop e f) v = refl
  Step-Linear (read_item e) v = refl
  Step-Linear {s} (end_pop x e) v =
      ground
        (arith, increment-eq size s.fifo.head v.valid.small v.valid.head_in, contents-get v.valid)

  pub Reach-Inv :
      {garbage : Array A} {s : System A} → size + 1 < 2 ^ 32 → Reach size garbage s → Inv size s
  Reach-Inv {garbage} h here = start-Inv garbage h
  Reach-Inv h (next r st) = Step-Inv st (Reach-Inv h r)

  -- In every reachable state each possible step acts on the items between the indices as one call
  -- of a bounded queue of capacity `Size`, or leaves them alone: `push` takes effect at its write
  -- of `tail` or fails at its read of `head`, `pop` takes effect at its write of `head` or fails at
  -- its read of `tail`.
  pub linearizable :
      {garbage : Array A} {s t : System A}
      → size + 1 < 2 ^ 32
      → Reach size garbage s
      → (st : Step size s t) → Linear st
  linearizable h r st = Step-Linear st (Reach-Inv h r)

  Step-history :
      {s t : System A} (st : Step size s t)
      → Linear st
      → s.pushed ≡ s.popped ++ contents size s.fifo
      → t.pushed ≡ t.popped ++ contents size t.fifo
  Step-history (begin_push x e) l h = h
  Step-history (push_full x n e f) l h = h
  Step-history (push_room x n e f) l h = h
  Step-history {s} (write_item x n e) l h = rw l h
  Step-history {s} (end_push x n e) l h =
      rw ((push-eq-true (contents size s.fifo) x l).1, h)
        (append_assoc s.popped (contents size s.fifo) (x ∷ []))
  Step-history (pop_empty e f) l h = h
  Step-history (begin_pop e f) l h = h
  Step-history (read_item e) l h = h
  Step-history {s} (end_pop x e) l h =
      h
      ∙ ap (λ l. s.popped ++ l) (pop-eq-some (contents size s.fifo) l)
      ∙ sym (append_assoc s.popped (x ∷ []) _)

  Reach-history :
      {garbage : Array A} {s : System A}
      → size + 1 < 2 ^ 32
      → Reach size garbage s
      → s.pushed ≡ s.popped ++ contents size s.fifo
  Reach-history {garbage} h here = sym (contents-none (start-Inv garbage h).valid refl)
  Reach-history h (next r st) = Step-history st (linearizable h r st) (Reach-history h r)

  -- In every reachable state the items that `push` has accepted are, in order, those that `pop` has
  -- returned followed by those between the indices, which are at most `Size`: nothing is lost,
  -- duplicated or overtaken, however the two threads interleave.
  pub fifo_order :
      {garbage : Array A} {s : System A}
      → size + 1 < 2 ^ 32
      → Reach size garbage s
      → (s.pushed ≡ s.popped ++ contents size s.fifo) × (length (contents size s.fifo) ≤ size)
  fifo_order {s} h r =
      let v = (Reach-Inv h r).valid in
      (Reach-history h r, omega (arith, length-contents size s.fifo, ahead-lt v.head_in v.tail_in))
