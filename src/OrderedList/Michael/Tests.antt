-- ===== src/OrderedList/Michael/Tests.antt =====
-- Runs of Michael's list: an insert, then a search that finds the key and one that does not.
use temp_data_structure_benc.Prelude.{
  ℕ, ◌≡◌, ◌∷◌, true, false, refl, Bool, List, [], some, arith, if◌then◌else◌,
}
use temp_data_structure_benc.Prelude.Sort.{contains}
use temp_data_structure_benc.OrderedList.Michael.{
  Purpose, Worker, System, Step, begin_find, begin_insert, load_head, at_end, load_next, next_same,
  less, store_next, insert_true, Reach, here, next,
}
use temp_data_structure_benc.OrderedList.Michael.Sorted.{IsNew, grow, IsList, step_links}
use temp_data_structure_benc.OrderedList.Michael.Search.{Was, IsAbsent, search_answers}
use temp_data_structure_benc.OrderedList.Michael.Clear.{clear, is_empty, all_freed}

abbrev assign : ℕ → ℕ → Bool → ℕ
assign old arg is_new = arg

abbrev replace : ℕ → ℕ → ℕ
replace old arg = arg

-- The thread 0 is about to link the node 10 with the key 5.
abbrev ready : (s : System) × Reach assign replace s
ready = (
  _,
  next 0
      (next 0
        (next 0 (next 0 here (begin_insert 5 50 10 refl (omega arith) refl))
          (load_head (Purpose.insert 10) 5 refl))
        (at_end (Purpose.insert 10) 5 0 0 refl refl))
      (store_next (Purpose.insert 10) 10 5 0 0 refl refl),
)

abbrev link_ten : (t : System) × Step assign replace ready.0 0 t
link_ten = (_, insert_true 10 5 0 0 refl refl)

-- The thread 1 searches for the key 7.
abbrev searched : (s : System) × Reach assign replace s
searched = (
  _,
  next 1
      (next 1
        (next 1
          (next 1
            (next 1 (next 1 (next 0 ready.1 link_ten.1) (begin_find 7 refl))
              (load_head Purpose.find 7 refl))
            (load_next Purpose.find 7 0 10 refl (omega arith)))
          (next_same Purpose.find 7 0 10 0 refl refl))
        (less Purpose.find 7 0 10 0 refl refl (omega arith)))
      (at_end Purpose.find 7 10 0 refl refl),
)

step_links_example :
    (ns : List ℕ) × IsList ready.0 ns
    × IsList link_ten.0 (grow ready.0 (some 10) ns)
    × IsNew ready.0 ns (some 10)
step_links_example = step_links ready.1 link_ten.1

search_answers_example : Was (IsAbsent 7) 1 searched.1
search_answers_example = search_answers searched.1 1 (Worker.missing Purpose.find 7 10 0) refl

all_freed_example :
    (t : System) × (clear 2 link_ten.0 ≡ some (t, 10 ∷ []))
    × (is_empty t ≡ true)
    × ((n : ℕ) → t.live n ≡ (if contains (10 ∷ []) n then false else link_ten.0.live n))
all_freed_example =
    all_freed 2 link_ten.0 (10 ∷ []) ((refl, omega arith, refl), (tt, tt), λ n h. ground (arith, h))
      (omega arith)
