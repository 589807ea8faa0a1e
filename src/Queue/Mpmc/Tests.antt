-- ===== src/Queue/Mpmc/Tests.antt =====
-- The bounded queue of Vyukov on concrete inputs: two cells.
use temp_data_structure_benc.Prelude.{ℕ, ◌≡◌, ◌<◌, ◌≤◌, refl, some, Array, arith}
use temp_data_structure_benc.Queue.Mpmc.{
  System, Reach, here, next, cell, steps, begin_enqueue, load_enqueue, enqueue_ready, enqueue_wins,
  write_value, publish, begin_dequeue, load_dequeue, dequeue_ready, dequeue_wins, read_value,
}
use temp_data_structure_benc.Queue.Mpmc.Exchange.{got-sent}

abbrev zeros : Array ℕ
zeros _ = 0

abbrev keep : ℕ → ℕ
keep x = x

-- Thread 1 has enqueued 7, and thread 2 has read it.
abbrev moved : (s : System ℕ) × Reach 1 keep zeros s
unfolding cell
moved = (
  _,
  next 2
      (next 2
        (next 2
          (next 2
            (next 2
              (next 1
                (next 1
                  (next 1
                    (next 1 (next 1 (next 1 here (begin_enqueue 7 refl)) (load_enqueue 7 refl))
                      (enqueue_ready 7 0 refl refl))
                    (enqueue_wins 7 0 refl refl))
                  (write_value 7 0 refl))
                (publish 0 refl))
              (begin_dequeue refl))
            (load_dequeue refl))
          (dequeue_ready 0 refl refl))
        (dequeue_wins 0 refl refl))
      (read_value 0 refl),
)

got-sent_example :
    (0 < moved.0.queue.pos_dequeue)
    × (moved.0.queue.pos_dequeue ≤ moved.0.queue.pos_enqueue)
    × (moved.0.sent 0 ≡ some 7)
unfolding cell steps
got-sent_example = got-sent {k = 1} keep (omega arith) moved.1 (omega arith) 0 7 refl

-- Both cells hold items, and thread 2 tests the first one.
abbrev filled : (s : System ℕ) × Reach 1 keep zeros s
unfolding cell
filled = (
  _,
  next 2
      (next 2
        (next 1
          (next 1
            (next 1
              (next 1
                (next 1
                  (next 1
                    (next 1
                      (next 1
                        (next 1
                          (next 1
                            (next 1 (next 1 (here) (begin_enqueue 7 refl)) (load_enqueue 7 refl))
                            (enqueue_ready 7 0 refl refl))
                          (enqueue_wins 7 0 refl refl))
                        (write_value 7 0 refl))
                      (publish 0 refl))
                    (begin_enqueue 8 refl))
                  (load_enqueue 8 refl))
                (enqueue_ready 8 1 refl refl))
              (enqueue_wins 8 1 refl refl))
            (write_value 8 1 refl))
          (publish 1 refl))
        (begin_enqueue 9 refl))
      (load_enqueue 9 refl),
)

abbrev waiting : (s : System ℕ) × Reach 1 keep zeros s
waiting = (_, next 2 (next 2 here (begin_dequeue refl)) (load_dequeue refl))
