-- ===== src/Fifo.antt =====
-- What the queues promise: a list of items, oldest first, of at most `cap` where it is bounded.
use temp_data_structure_benc.Prelude.{
  ℕ, List, [], ◌∷◌, ◌++◌, Bool, true, false, Option, none, some, length, ltb, ◌≡◌, ◌<◌, ◌≤◌, arith,
  if◌then◌else◌,
}

-- What a client can ask of a queue.
pub data Op (A : Type 0) : Type 0 where
  put : A → Op A
  get : Op A

-- What a call returns: its Boolean result, and the item that goes through the reference argument.
abbrev pub Reply : Type 0 → Type 0
Reply A = Bool × Option A

module _ {A : Type 0} (cap : ℕ) where
  unfoldable pub push : List A → A → Bool × List A
  push q x = if ltb (length q) cap then (true, q ++ (x ∷ [])) else (false, q)

module _ {A : Type 0} where
  unfoldable pub pop : List A → Reply A × List A
  pop [] = ((false, none), [])
  pop (x ∷ q) = ((true, some x), q)

module _ {A : Type 0} (cap : ℕ) where
  unfoldable pub run : List A → List (Op A) → List (Reply A)
  run q [] = []
  run q (put x ∷ ops) = let (ok, q') = push cap q x in (ok, none) ∷ run q' ops
  run q (get ∷ ops) = let (r, q') = pop q in r ∷ run q' ops

module _ {A : Type 0} where
  -- The replies of a queue that is never full.
  unfoldable pub run_unbounded : List A → List (Op A) → List (Reply A)
  run_unbounded q [] = []
  run_unbounded q (put x ∷ ops) = (true, none) ∷ run_unbounded (q ++ (x ∷ [])) ops
  run_unbounded q (get ∷ ops) = let (r, q') = pop q in r ∷ run_unbounded q' ops

module _ {A : Type 0} {cap : ℕ} where
  pub push_room : (q : List A) (x : A) → length q < cap → push cap q x ≡ (true, q ++ (x ∷ []))
  unfolding push
  push_room q x h = ground arith

  pub push_full : (q : List A) (x : A) → cap ≤ length q → push cap q x ≡ (false, q)
  unfolding push
  push_full q x h = ground arith

  pub push-eq-true :
      (q : List A) (x : A) {q' : List A}
      → push cap q x ≡ (true, q')
      → (length q < cap) × (q' ≡ q ++ (x ∷ []))
  unfolding push
  push-eq-true q x e = ground arith

pub pop-eq-some :
    {A : Type 0} (q : List A) {x : A} {q' : List A} → pop q ≡ ((true, some x), q') → q ≡ x ∷ q'
unfolding pop
pop-eq-some [] e = cc
pop-eq-some (y ∷ q) e = cc
