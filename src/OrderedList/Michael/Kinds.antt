-- ===== src/OrderedList/Michael/Kinds.antt =====
-- The kinds of steps of Michael's list, and that each keeps the invariant.
use temp_data_structure_benc.Prelude.{
  ℕ, ◌≡◌, ◌≢◌, ◌<◌, ◌⊎◌, ◌∷◌, ◌∙◌, true, false, none, some, List, [], Array, update, refl, sym, ap,
  update_self, update_ne, inl, inr, All, Bool-cases,
}
use mathlib.Core.Path.{subst}
use temp_data_structure_benc.Prelude.Sort.{contains, Ascending}
use temp_data_structure_benc.Queue.TwoLock.Chain.{Chain, Chain-away}
use temp_data_structure_benc.OrderedList.Michael.{Worker, System, at, alloc_node, free_node}
use temp_data_structure_benc.Prelude.Sort.{contains-absent}
use temp_data_structure_benc.OrderedList.Michael.Invariant.{
  owned, key_of, IsPlace, IsPrivate, Inv, step-Inv,
}

-- A list without the node keeps its order when the key of the node changes.
Ascending-away :
    (key : Array ℕ) (ns : List ℕ) (i k : ℕ)
    → All (λ n. n ≢ i) ns
    → Ascending key ns
    → Ascending (update key i k) ns
Ascending-away key [] i k a h = tt
Ascending-away key (n ∷ ns) i k a h = (
  subst (λ x. All (λ m. x < update key i k m) ns) (sym (update_ne key k (λ e. a.0 (sym e))))
      (above ns a.1 h.0),
  Ascending-away key ns i k a.1 h.1,
)
  where
    above :
        (ms : List ℕ)
        → All (λ m. m ≢ i) ms
        → All (λ m. key n < key m) ms
        → All (λ m. key n < update key i k m) ms
    above [] b l = tt
    above (m ∷ ms) b l =
        (subst (λ x. key n < x) (sym (update_ne key k (λ e. b.0 (sym e)))) l.0, above ms b.1 l.1)

pub Chain-All : (next : Array ℕ) (h : ℕ) (ns : List ℕ) → Chain next h ns → All (λ n. n ≢ 0) ns
Chain-All next h [] c = tt
Chain-All next h (n ∷ ns) c = (c.1, Chain-All next n ns c.2)

module _ {s : System} {ns : List ℕ} (v : Inv s ns) where
  -- A node that is not allocated is not in the list, and no thread owns it.
  dead_absent : (n : ℕ) → s.live n ≡ false → contains ns n ≡ false
  dead_absent n dead = elim (Bool-cases (contains ns n)) [
    | inl has ↦ absurd (cc (dead, v.lives n has))
    | inr absent ↦ absent
  ]

  -- A step of one thread alone.
  pub move :
      (tid : ℕ) (old w : Worker)
      → s.worker tid ≡ old
      → ((n : ℕ) → owned w ≡ some n → (owned old ≡ some n) × (key_of old ≡ key_of w))
      → IsPlace s ns w
      → Inv (at s tid w) ns
  move tid old w e keep place =
      step-Inv v (at s tid w) ns tid w refl (λ n h. (h, refl))
        (λ u n ne o. ((v.owns u n o).0, refl, refl)) v.chain v.sorted v.lives
        (λ n o.
          let (o', same) = keep n o in
          let mine : owned (s.worker tid) ≡ some n = ap owned e ∙ o' in
          let (private, key) = v.owns tid n mine in (inl mine, private, key ∙ ap key_of e ∙ same))
        place

  -- A call of the functor.
  pub store_value :
      (tid cur val : ℕ) → Inv (record (at s tid Worker.idle) { value = update s.value cur val }) ns
  store_value tid cur val =
      step-Inv v (record (at s tid Worker.idle) { value = update s.value cur val }) ns tid
        Worker.idle refl (λ n h. (h, refl)) (λ u n ne o. ((v.owns u n o).0, refl, refl)) v.chain
        v.sorted v.lives (λ n o. cc) tt

  pub allocate :
      (tid node key val : ℕ) (w : Worker)
      → node ≢ 0
      → s.live node ≡ false
      → owned w ≡ some node
      → key_of w ≡ key
      → IsPlace (at (alloc_node s node key val) tid w) ns w
      → Inv (at (alloc_node s node key val) tid w) ns
  allocate tid node key val w nz dead own is_key place =
      step-Inv v (at (alloc_node s node key val) tid w) ns tid w refl
        (λ n h. (h, update_ne s.key key (other n (v.lives n h))))
        (λ u n ne o.
          let ((nz', alive, absent), _) = v.owns u n o in
          let ne' : node ≢ n = other n alive in
          (
            (nz', update_ne s.live true ne' ∙ alive, absent),
            update_ne s.key key ne',
            update_ne s.next 0 ne',
          ))
        (Chain-away s.next 0 ns node 0 (λ e. nz (sym e)) apart v.chain)
        (Ascending-away s.key ns node key apart v.sorted)
        (λ n h. let alive = v.lives n h in update_ne s.live true (other n alive) ∙ alive)
        (λ n o.
          let e : node ≡ n = cc (own, o) in
          subst
            (λ m.
              ((owned (s.worker tid) ≡ some m) ⊎ (s.live m ≡ false))
              × IsPrivate (at (alloc_node s node key val) tid w) ns m
              × (update s.key node key m ≡ key_of w))
            e
            (
              inr dead,
              (nz, update_self s.live node true, absent_node),
              update_self s.key node key ∙ sym is_key,
            ))
        place
    where
      other : (n : ℕ) → s.live n ≡ true → node ≢ n
      other n alive e = cc (e, alive, dead)

      absent_node : contains ns node ≡ false
      absent_node = dead_absent node dead

      apart : All (λ n. n ≢ node) ns
      apart = contains-absent ns node absent_node

  -- The node that a thread owns is freed.
  pub free :
      (tid node : ℕ) (w : Worker)
      → owned (s.worker tid) ≡ some node
      → owned w ≡ none
      → IsPlace (at (free_node s node) tid w) ns w
      → Inv (at (free_node s node) tid w) ns
  free tid node w own none_left place =
      step-Inv v (at (free_node s node) tid w) ns tid w refl (λ n h. (h, refl))
        (λ u n ne o.
          let ((nz, alive, absent), _) = v.owns u n o in
          (
            (
              nz,
              update_ne s.live false (λ e. ne (v.once tid u n (own ∙ ap some e) o)) ∙ alive,
              absent,
            ),
            refl,
            refl,
          ))
        v.chain v.sorted
        (λ n h. update_ne s.live false (λ e. cc (e, h, (v.owns tid node own).0.2)) ∙ v.lives n h)
        (λ n o. cc (o, none_left)) place

  -- The node that a thread owns is made to point to `cur`.
  pub set_next :
      (tid node cur : ℕ) (w : Worker)
      → owned (s.worker tid) ≡ some node
      → ((n : ℕ) → owned w ≡ some n → (node ≡ n) × (key_of (s.worker tid) ≡ key_of w))
      → IsPlace (record (at s tid w) { next = update s.next node cur }) ns w
      → Inv (record (at s tid w) { next = update s.next node cur }) ns
  set_next tid node cur w own keep place =
      let ((nz, alive, absent), is_key) = v.owns tid node own in
      step-Inv v (record (at s tid w) { next = update s.next node cur }) ns tid w refl
        (λ n h. (h, refl))
        (λ u n ne o. (
          (v.owns u n o).0,
          refl,
          update_ne s.next cur (λ e. ne (v.once tid u n (own ∙ ap some e) o)),
        ))
        (Chain-away s.next 0 ns node cur (λ e. nz (sym e)) (contains-absent ns node absent) v.chain)
        v.sorted v.lives
        (λ n o.
          let (e, same) = keep n o in
          let mine : owned (s.worker tid) ≡ some n = own ∙ ap some e in
          let (private, key) = v.owns tid n mine in (inl mine, private, key ∙ same))
        place
