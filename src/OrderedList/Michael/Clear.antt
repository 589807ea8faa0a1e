-- ===== src/OrderedList/Michael/Clear.antt =====
-- MichaelList::clear, which is "not thread safe": it runs with no other call under way.
use temp_data_structure_benc.Prelude.{
  ℕ, zero, suc, ◌≡◌, ◌≢◌, ◌<◌, ◌∷◌, ◌∙◌, true, false, Bool, Option, none, some, List, [], Array,
  update, ◌==◌, if◌then◌else◌, if_elim, refl, ap, arith, length,
}
use temp_data_structure_benc.Prelude.Sort.{contains}
use temp_data_structure_benc.Queue.TwoLock.Chain.{Chain, Chain-away}
use temp_data_structure_benc.OrderedList.Michael.{System, free_node}
use temp_data_structure_benc.OrderedList.Michael.Kinds.{Chain-All}
use temp_data_structure_benc.OrderedList.Michael.Sorted.{IsList}

abbrev pub is_empty : System → Bool
is_empty s = s.next 0 == 0

abbrev note_freed : ℕ → Option (System × List ℕ) → Option (System × List ℕ)
note_freed n none = none
note_freed n (some (s, ns)) = some (s, n ∷ ns)

-- The second loop: the list after it and the nodes that it freed, in their order.
abbrev pub clear_loop : ℕ → System → ℕ → Option (System × List ℕ)
clear_loop zero s head = none
clear_loop (suc fuel) s head =
    let rest = clear_loop fuel (free_node s head) (s.next head) in
    if head == 0 then some (s, []) else note_freed head rest

abbrev pub clear : ℕ → System → Option (System × List ℕ)
clear fuel s = clear_loop fuel (record s { next = update s.next 0 0 }) (s.next 0)

abbrev free_all : System → List ℕ → System
free_all s [] = s
free_all s (n ∷ ns) = free_all (free_node s n) ns

-- The pointer leads into the chain.
abbrev Starts : Array ℕ → ℕ → List ℕ → Type 0
Starts next head [] = head ≡ 0
Starts next head (n ∷ ns) = (head ≡ n) × (n ≢ 0) × Chain next n ns

Chain-Starts : (next : Array ℕ) (h : ℕ) (ns : List ℕ) → Chain next h ns → Starts next (next h) ns
Chain-Starts next h [] c = c
Chain-Starts next h (n ∷ ns) c = c

clear_loop_lem :
    (fuel : ℕ) (s : System) (head : ℕ) (ns : List ℕ)
    → Starts s.next head ns
    → length ns < fuel
    → clear_loop fuel s head ≡ some (free_all s ns, ns)
clear_loop_lem zero s head ns c lt = absurd (omega arith)
clear_loop_lem (suc fuel) s head [] c lt =
    if_elim (λ x. x ≡ some (s, [])) (head == 0) (λ _. refl) (λ ne. absurd (ground (arith, ne, c)))
clear_loop_lem (suc fuel) s head (n ∷ ns) c lt =
    let rest =
      clear_loop_lem fuel (free_node s n) (s.next n) ns (Chain-Starts s.next n ns c.2)
        (omega arith) in
    rw c.0 (
      if_elim (λ x. x ≡ some (free_all s (n ∷ ns), n ∷ ns)) (n == 0)
        (λ null. absurd (c.1 (ground (arith, null)))) (λ _. ap (note_freed n) rest))

free_all-live :
    (s : System) (ns : List ℕ) (n : ℕ)
    → (free_all s ns).live n ≡ (if contains ns n then false else s.live n)
free_all-live s [] n = refl
free_all-live s (m ∷ ns) n = free_all-live (free_node s m) ns n ∙ ground arith

free_all-next : (s : System) (ns : List ℕ) → (free_all s ns).next ≡ s.next
free_all-next s [] = refl
free_all-next s (m ∷ ns) = free_all-next (free_node s m) ns

-- The compare and swap of `m_pHead` leaves the nodes as they are.
unlinked : (s : System) (ns : List ℕ) → IsList s ns → Starts (update s.next 0 0) (s.next 0) ns
unlinked s [] l = l.0
unlinked s (n ∷ ns) l =
    let (e, nz, c) = l.0 in (e, nz, Chain-away s.next n ns 0 0 nz (Chain-All s.next n ns c) c)

-- On a list of live nodes in the order of their keys, with more fuel than nodes, clear ends: it frees
-- the nodes of the list, each once and no other, and leaves the list empty.
pub all_freed :
    (fuel : ℕ) (s : System) (ns : List ℕ)
    → IsList s ns
    → length ns < fuel
    → (t : System) × (clear fuel s ≡ some (t, ns))
      × (is_empty t ≡ true)
      × ((n : ℕ) → t.live n ≡ (if contains ns n then false else s.live n))
all_freed fuel s ns l lt =
    let s' : System = record s { next = update s.next 0 0 } in
    (
      free_all s' ns,
      clear_loop_lem fuel s' (s.next 0) ns (unlinked s ns l) lt,
      ap (λ (a : Array ℕ). a 0 == 0) (free_all-next s' ns),
      free_all-live s' ns,
    )
