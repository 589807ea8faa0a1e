-- ===== src/Queue/FastForward/Calls.antt =====
-- `enqueue` and `dequeue` of ffqueue_sentinel.h, called by one thread at a time.
use temp_data_structure_benc.Prelude.{
  ℕ, ◌+◌, ◌%◌, ◌^◌, ◌<◌, ◌≡◌, ◌≢◌, refl, ap, ap₂, ◌∙◌, true, false, some, List, [], ◌∷◌, update,
  arith, length, get_or, add-mod-ne,
}
use native.Mathlib.Nat.{mod-eq_of_lt, add-zero}
use native.Mathlib.Decide.{dec_lt}
use temp_data_structure_benc.Fifo
use temp_data_structure_benc.Fifo.{push_room, push_full}
use temp_data_structure_benc.Queue.FastForward.{FastForwardQueue, next, new, enqueue, dequeue}
use temp_data_structure_benc.Queue.FastForward.Cells.{
  Cells, head_in, tail_first, tail_free, head_free, head_taken, Cells-put, Cells-get,
}

-- The queue holds `items`, oldest first, and its capacity does not wrap.
pub record Holds (size : ℕ) (q : FastForwardQueue) (items : List ℕ) : Type 0 where
  pub small : size + 1 < 2 ^ 32
  pub cells : Cells (size + 1) q.sentinel q.buffer q.tail q.head items

pub next-eq : (size i : ℕ) → size + 1 < 2 ^ 32 → i < size + 1 → next size i ≡ (i + 1) % (size + 1)
next-eq size i s h = ap₂ ◌%◌ (mod-eq_of_lt {n = i + 1} {m = 2 ^ 32} (omega arith)) (mod-eq_of_lt s)

pub new-Holds : (size sentinel : ℕ) → size + 1 < 2 ^ 32 → Holds size (new sentinel) []
new-Holds size sentinel h = record {
  small = h;
  cells = record {
    tail_in = omega arith;
    fits = omega arith;
    head_at = omega arith;
    proper = tt;
    cell = λ k _. refl;
  };
}

module _ (size : ℕ) (q : FastForwardQueue) where
  enqueue_free :
      (x : ℕ)
      → q.buffer q.head ≡ q.sentinel
      → enqueue size q x
        ≡ (true, record q { buffer = update q.buffer q.head x; head = next size q.head })
  unfolding enqueue
  enqueue_free x e = ground arith

  enqueue_taken : (x : ℕ) → q.buffer q.head ≢ q.sentinel → enqueue size q x ≡ (false, q)
  unfolding enqueue
  enqueue_taken x e = ground arith

  dequeue_free : q.buffer q.tail ≡ q.sentinel → dequeue size q ≡ ((false, some q.sentinel), q)
  unfolding dequeue
  dequeue_free e = ground arith

  dequeue_taken :
      (x : ℕ)
      → q.buffer q.tail ≡ x
      → x ≢ q.sentinel
      → dequeue size q ≡ (
        (true, some x),
        record q { buffer = update q.buffer q.tail q.sentinel; tail = next size q.tail },
      )
  unfolding dequeue
  dequeue_taken x e ne = ground arith

module _ {size : ℕ} {q : FastForwardQueue} where
  -- `enqueue` of an item other than the sentinel does what `push` of a queue of capacity `Size + 1`
  -- does: it returns the same, and the ring then holds the items of that queue.
  pub enqueue_refines :
      (items : List ℕ) (x : ℕ)
      → Holds size q items
      → x ≢ q.sentinel
      → let (done, items') = Fifo.push (size + 1) items x in
        ((enqueue size q x).0 ≡ done) × Holds size (enqueue size q x).1 items'
  enqueue_refines items x h ne = elim (dec_lt (length items) (size + 1)) [
    | yes room ↦
        rw
          (
            enqueue_free size q x (head_free h.cells room),
            push_room items x room,
            next-eq size q.head h.small (head_in h.cells),
          )
          (refl, record { small = h.small; cells = Cells-put h.cells ne room })
    | no full ↦
        rw
          (
            enqueue_taken size q x (head_taken h.cells (omega (arith, h.cells.fits))),
            push_full {cap = size + 1} items x (omega arith),
          )
          (refl, h)
  ]

  -- `dequeue` returns what `pop` returns and leaves the ring holding the rest. Through its
  -- argument it hands out the oldest item, or the sentinel if there is none.
  pub dequeue_refines :
      (items : List ℕ)
      → Holds size q items
      → let (r, items') = Fifo.pop items in
        ((dequeue size q).0 ≡ (r.0, some (get_or items 0 q.sentinel)))
        × Holds size (dequeue size q).1 items'
  unfolding Fifo.pop
  dequeue_refines [] h = rw (dequeue_free size q (tail_free h.cells)) (refl, h)
  dequeue_refines (x ∷ items) h =
      rw
        (
          dequeue_taken size q x (tail_first h.cells) h.cells.proper.0,
          next-eq size q.tail h.small h.cells.tail_in,
        )
        (refl, record { small = h.small; cells = Cells-get h.cells })

  -- The sentinel as an item: `enqueue` accepts it into an empty ring of two cells or more, and the
  -- next item, which is accepted too, is not found by `dequeue`, which reports an empty queue.
  pub sentinel_stalls :
      (x : ℕ)
      → Holds size q []
      → 0 < size
      → let (first, q') = enqueue size q q.sentinel in
        let (second, q'') = enqueue size q' x in
        (first ≡ true) × (second ≡ true) × (dequeue size q'' ≡ ((false, some q.sentinel), q''))
  unfolding enqueue dequeue
  sentinel_stalls x h pos =
      ground (arith, here, there, away, tail_free h.cells, h.cells.cell 1 (omega arith))
    where
      here : q.head ≡ q.tail
      here =
          h.cells.head_at
          ∙ ap (λ n. n % (size + 1)) (add-zero q.tail)
          ∙ mod-eq_of_lt h.cells.tail_in

      there : next size q.head ≡ (q.tail + 1) % (size + 1)
      there = next-eq size q.head h.small (head_in h.cells) ∙ ap (λ n. (n + 1) % (size + 1)) here

      away : (q.tail + 1) % (size + 1) ≢ q.tail
      away = add-mod-ne {n = 0} (omega arith) h.cells.tail_in
