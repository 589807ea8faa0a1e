-- ===== src/OrderedList/Michael/Insert.antt =====
-- The compare and swap that links a node into Michael's list.
use temp_data_structure_benc.Prelude.{
  ℕ, ◌≡◌, ◌≢◌, ◌<◌, ◌⊎◌, ◌∙◌, true, none, some, List, update, refl, sym, ap, update_ne, inl, inr,
  All, All-imp, Bool-cases,
}
use mathlib.Core.Path.{subst}
use temp_data_structure_benc.Prelude.Sort.{contains, insert, insert-Ascending}
use temp_data_structure_benc.OrderedList.Michael.{Purpose, Worker, System, at, node_of}
use temp_data_structure_benc.OrderedList.Michael.Chain.{
  contains-insert, Chain-between, Chain-insert,
}
use temp_data_structure_benc.OrderedList.Michael.Invariant.{
  owned, key_of, IsBefore, IsPlace, IsPrivate, Inv, known, step-Inv,
}
use temp_data_structure_benc.OrderedList.Michael.Kinds.{Chain-All}

module _ {s : System} {ns : List ℕ} (v : Inv s ns) where
  -- The search has passed all keys that are less.
  pub absent_here :
      (k prev : ℕ)
      → IsBefore s ns k prev
      → (s.next prev ≢ 0 → k < s.key (s.next prev))
      → All (λ n. s.key n ≢ k) ns
  absent_here k prev before after =
      Chain-between s.next s.key 0 ns prev k v.chain v.sorted (Chain-All s.next 0 ns v.chain) before
        after

  module _ (tid : ℕ) (purpose : Purpose) (node key prev cur : ℕ)
      (e : s.worker tid ≡ Worker.link purpose key prev cur) (own : node_of purpose ≡ some node)
      (same : s.next prev ≡ cur) where
    mine : IsPrivate s ns node × (s.key node ≡ key)
    mine =
        let (private, is_key) = v.owns tid node (ap owned e ∙ own) in
        (private, is_key ∙ ap key_of e)

    pub absent_key : All (λ n. s.key n ≢ key) ns
    absent_key =
        let (before, after, _) = known v tid _ e in
        absent_here key prev before
          (λ nz. subst (λ n. key < s.key n) (sym same) (after (λ z. nz (same ∙ z))).1)

    pub absent_node : (n : ℕ) → node ≡ n → All (λ m. s.key m ≢ s.key n) ns
    absent_node n z = All-imp ns (λ m h eq. h (eq ∙ ap s.key (sym z) ∙ mine.1)) absent_key

    -- The node is linked.
    pub link_node :
        (w : Worker)
        → owned w ≡ none
        → IsPlace (record (at s tid w) { next = update s.next prev node }) (insert s.key node ns) w
        → Inv (record (at s tid w) { next = update s.next prev node }) (insert s.key node ns)
    link_node w none_left place =
        let (before, after, stored) = known v tid _ e in
        let ((nz, alive, absent), is_key) = mine in
        let fit : (prev ≡ 0) ⊎ ((contains ns prev ≡ true) × (s.key prev < s.key node)) =
          subst (λ k. (prev ≡ 0) ⊎ ((contains ns prev ≡ true) × (s.key prev < k))) (sym is_key)
            before in
        step-Inv v (record (at s tid w) { next = update s.next prev node }) (insert s.key node ns)
          tid w refl (λ n h. ((contains-insert s.key node ns n).1 (inr h), refl))
          (λ u n ne o.
            let ((nz', alive', absent'), _) = v.owns u n o in
            (
              (
                nz',
                alive',
                elim (Bool-cases (contains (insert s.key node ns) n)) [
                  | inl has ↦ elim ((contains-insert s.key node ns n).0 has) [
                    | inl z ↦ absurd (ne (v.once tid u n (ap owned e ∙ own ∙ ap some z) o))
                    | inr h ↦ absurd (cc (h, absent'))
                  ]
                  | inr new ↦ new
                ],
              ),
              refl,
              update_ne s.next node (λ z. elim before [
                | inl zero ↦ nz' (sym z ∙ zero)
                | inr h ↦ cc (z, h.0, absent')
              ]),
            ))
          (Chain-insert s.next s.key 0 ns prev node v.chain v.sorted (Chain-All s.next 0 ns v.chain)
            nz nz absent fit
            (λ nz'.
              subst (λ k. k < s.key (s.next prev)) (sym is_key)
                (subst (λ n. key < s.key n) (sym same) (after (λ z. nz' (same ∙ z))).1))
            (stored node own ∙ sym same))
          (insert-Ascending s.key node ns (All-imp ns (λ n h z. h (sym z ∙ is_key)) absent_key)
            v.sorted)
          (λ n h. elim ((contains-insert s.key node ns n).0 h) [
            | inl z ↦ ap s.live (sym z) ∙ alive
            | inr old ↦ v.lives n old
          ])
          (λ n o. cc (o, none_left)) place
