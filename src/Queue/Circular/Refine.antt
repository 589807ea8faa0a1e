-- ===== src/Queue/Circular/Refine.antt =====
-- `CircularFifo` of csqueue.h, called by one thread at a time, against a bounded queue.
use temp_data_structure_benc.Prelude.{
  ℕ, ◌+◌, ◌%◌, ◌^◌, ◌<◌, ◌≡◌, ◌≢◌, ap, ap₂, ◌∙◌, true, List, [], ◌∷◌, ◌++◌, Array, update, ◌==◌,
  arith, window, window-push, window-suc, length, length-window, Bool-cases, inl, inr, ◌↔◌, sym,
}
use native.Mathlib.Nat.{mod-eq_of_lt}
use temp_data_structure_benc.Prelude.Ring.{
  ahead, ahead-lt, add-ahead, ahead-step, ahead-full, ahead-pop, ahead_self,
}
use temp_data_structure_benc.Fifo
use temp_data_structure_benc.Fifo.{Op, put, get}
use temp_data_structure_benc.Queue.Circular.{
  CircularFifo, capacity, increment, new, push, pop, is_full, is_empty,
}

-- The indices are in the array, and the capacity does not wrap.
pub record IsValid {A : Type 0} (size : ℕ) (q : CircularFifo A) : Type 0 where
  pub small : size + 1 < 2 ^ 32
  pub head_in : q.head < size + 1
  pub tail_in : q.tail < size + 1

module _ {A : Type 0} (size : ℕ) where
  -- how many items lie between the two indices
  abbrev pub count : CircularFifo A → ℕ
  count q = ahead (size + 1) q.head q.tail

  abbrev pub contents : CircularFifo A → List A
  contents q = window (size + 1) q.array q.head (count q)

  pub length-contents : (q : CircularFifo A) → length (contents q) ≡ count q
  length-contents q = length-window (size + 1) q.array q.head (count q)

pub new-IsValid :
    {A : Type 0} (size : ℕ) (garbage : Array A) → size + 1 < 2 ^ 32 → IsValid size (new garbage)
new-IsValid size garbage h = omega arith

pub capacity-eq : (size : ℕ) → size + 1 < 2 ^ 32 → capacity size ≡ size + 1
capacity-eq size s = mod-eq_of_lt s

pub increment-eq :
    (size i : ℕ) → size + 1 < 2 ^ 32 → i < size + 1 → increment size i ≡ (i + 1) % (size + 1)
increment-eq size i s h =
    ap₂ ◌%◌ (mod-eq_of_lt {n = i + 1} {m = 2 ^ 32} (omega arith)) (capacity-eq size s)

module _ {A : Type 0} {size : ℕ} {q : CircularFifo A} (v : IsValid size q) where
  pub push-IsValid : (x : A) → IsValid size (push size q x).1
  unfolding push
  push-IsValid x = ground (arith, increment-eq size q.tail v.small v.tail_in)

  pub pop-IsValid : IsValid size (pop size q).1
  unfolding pop
  pop-IsValid = ground (arith, increment-eq size q.head v.small v.head_in)

  pub contents-put :
      (x : A)
      → (q.tail + 1) % (size + 1) ≢ q.head
      → contents size
          (record q { array = update q.array q.tail x; tail = (q.tail + 1) % (size + 1) })
        ≡ contents size q ++ (x ∷ [])
  contents-put x ne =
      ap (window (size + 1) (update q.array q.tail x) q.head) (ahead-step v.head_in v.tail_in ne)
      ∙ window-push (size + 1) q.array x (count size q) q.head q.tail v.head_in
          (ahead-lt v.head_in v.tail_in) (sym (add-ahead v.head_in v.tail_in))

  -- Moving the tail on takes in the cell that it stood on.
  pub contents-publish :
      (q.tail + 1) % (size + 1) ≢ q.head
      → contents size (record q { tail = (q.tail + 1) % (size + 1) })
        ≡ contents size q ++ (q.array q.tail ∷ [])
  contents-publish ne =
      ap (window (size + 1) q.array q.head) (ahead-step v.head_in v.tail_in ne)
      ∙ window-suc (size + 1) q.array (count size q) q.head v.head_in
      ∙ ap (λ i. contents size q ++ (q.array i ∷ [])) (add-ahead v.head_in v.tail_in)

  pub contents-get :
      q.head ≢ q.tail
      → contents size q
        ≡ q.array q.head ∷ contents size (record q { head = (q.head + 1) % (size + 1) })
  contents-get ne = ap (window (size + 1) q.array q.head) (ahead-pop v.head_in v.tail_in ne)

  pub contents-none : q.head ≡ q.tail → contents size q ≡ []
  contents-none e =
      ap (window (size + 1) q.array q.head)
        (ap (ahead (size + 1) q.head) (sym e) ∙ ahead_self v.head_in)

  -- `push` succeeds exactly when the queue holds fewer than `Size` items, and appends then.
  pub push_refines :
      (x : A)
      → let (done, q') = push size q x in
        (done, contents size q') ≡ Fifo.push size (contents size q) x
  unfolding push Fifo.push
  push_refines x = elim (Bool-cases (increment size q.tail == q.head)) [
    | inl full ↦ ground (
      arith,
      increment-eq size q.tail v.small v.tail_in,
      length-contents size q,
      ahead-full v.head_in v.tail_in,
    )
    | inr room ↦ ground (
      arith,
      increment-eq size q.tail v.small v.tail_in,
      length-contents size q,
      contents-put x,
      ahead-step v.head_in v.tail_in,
      ahead-lt {c = size + 1} {h = q.head} {t = (q.tail + 1) % (size + 1)} v.head_in (omega arith),
    )
  ]

  -- `pop` returns the oldest item and keeps the rest, or reports an empty queue.
  pub pop_refines : let (r, q') = pop size q in (r, contents size q') ≡ Fifo.pop (contents size q)
  unfolding pop Fifo.pop
  pop_refines = elim (Bool-cases (q.head == q.tail)) [
    | inl none_left ↦ ground (arith, contents-none)
    | inr some_left ↦ ground (arith, increment-eq size q.head v.small v.head_in, contents-get)
  ]

  -- `isEmpty` tells an empty queue.
  pub is_empty_lem : (is_empty q ≡ true) ↔ (contents size q ≡ [])
  unfolding is_empty
  is_empty_lem = ground (arith, contents-none, contents-get)

  -- `isFull` returns true exactly when the queue holds `Size` items.
  pub is_full_lem : (is_full size q ≡ true) ↔ (length (contents size q) ≡ size)
  unfolding is_full
  is_full_lem = ground (
    arith,
    increment-eq size q.tail v.small v.tail_in,
    length-contents size q,
    ahead-full v.head_in v.tail_in,
    ahead-step v.head_in v.tail_in,
    ahead-lt {c = size + 1} {h = q.head} {t = (q.tail + 1) % (size + 1)} v.head_in (omega arith),
  )
