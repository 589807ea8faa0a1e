-- ===== src/Stack/Treiber/Keeps.antt =====
-- The steps of Treiber's stack that change it, and those of one thread alone.
use temp_data_structure_benc.Prelude.{
  ℕ, ◌≡◌, ◌≢◌, ◌⊎◌, ◌∷◌, ◌∙◌, true, false, none, some, List, [], map, Array, update, refl, sym, ap,
  update_self, update_ne, inl, inr, All, arith, Bool-cases,
}
use mathlib.Core.Path.{subst}
use native.Mathlib.Decide.{ℕ_discrete}
use temp_data_structure_benc.Prelude.Sort.{contains}
use temp_data_structure_benc.Queue.TwoLock.Chain.{Chain, Chain-away, map-update}
use temp_data_structure_benc.Prelude.Sort.{contains-absent}
use temp_data_structure_benc.Stack.Treiber.{Worker, System, at, alloc_node, holds}
use temp_data_structure_benc.Stack.Treiber.Invariant.{
  pushing, Starts, Chain-Starts, Starts-same, All-contains, IsPlace, IsUsed, Inv, IsPlace-same,
  contains-cons,
}
use temp_data_structure_benc.Stack.Treiber.Kinds.{known, step-Inv}

pub Starts-Chain :
    (next : Array ℕ) (h head : ℕ) (ns : List ℕ)
    → next h ≡ head
    → Starts next head ns
    → Chain next h ns
Starts-Chain next h head [] e c = e ∙ c
Starts-Chain next h head (n ∷ ns) e c = (e ∙ c.0, c.1, c.2)

module _ {s : System} {ns : List ℕ} {own : Array (List ℕ)} (v : Inv s ns own) where
  -- A step of one thread alone.
  pub move :
      (tid : ℕ) (w : Worker)
      → ((n : ℕ) → pushing w ≡ some n → pushing (s.worker tid) ≡ some n)
      → ((n : ℕ) → holds w ≡ some n → (holds (s.worker tid) ≡ some n) ⊎ (contains ns n ≡ true))
      → IsPlace s (own tid) w
      → Inv (at s tid w) ns (update own tid (own tid))
  move tid w push_from hold_from place =
      step-Inv v (at s tid w) ns tid w (own tid) refl (λ n nz lives p. refl) (λ n h. h) (λ n h k. h)
        v.retired_live v.chain v.simple v.inside (λ n h. inl h)
        (λ n h. let (used, out) = v.owns tid n h in (inl h, used, out)) (λ n p. inl (push_from n p))
        hold_from place

  -- The links of the nodes do not change when `m_pTop` does.
  pub frame : (top n : ℕ) → n ≢ 0 → update s.next 0 top n ≡ s.next n
  frame top n nz = update_ne s.next top (λ e. nz (sym e))

  pub in_frame :
      (top : ℕ) (ms : List ℕ) → All (λ n. n ≢ 0) ms → All (λ n. update s.next 0 top n ≡ s.next n) ms
  in_frame top [] a = tt
  in_frame top (m ∷ ms) a = (frame top m a.0, in_frame top ms a.1)

  pub nonzero : All (λ n. n ≢ 0) ns
  nonzero = All-contains ns (λ n h. (v.inside n h).0)

  pub allocate :
      (tid node val : ℕ)
      → s.worker tid ≡ Worker.idle
      → node ≢ 0
      → s.live node ≡ false
      → Inv (at (alloc_node s node val) tid (Worker.push node)) ns (update own tid (node ∷ []))
        × (map (update s.value node val) ns ≡ map s.value ns)
  allocate tid node val e nz dead = (
    step-Inv v (at (alloc_node s node val) tid (Worker.push node)) ns tid (Worker.push node)
        (node ∷ []) refl (λ n nz' lives p. update_ne s.next 0 (other n lives))
        (λ n lives. update_ne s.live true (other n lives) ∙ lives) (λ n h k. h)
        (λ n h. let lives = v.retired_live n h in update_ne s.live true (other n lives) ∙ lives)
        (Chain-away s.next 0 ns node 0 (λ z. nz (sym z)) (contains-absent ns node absent) v.chain)
        v.simple
        (λ n h.
          let (nz', lives, unused) = v.inside n h in
          (nz', update_ne s.live true (other n lives) ∙ lives, unused))
        (λ n h. inl h)
        (λ n h.
          let z : node ≡ n = ground (arith, h) in
          subst
            (λ m.
              ((contains (own tid) m ≡ true) ⊎ (contains ns m ≡ true) ⊎ (s.live m ≡ false))
              × IsUsed (at (alloc_node s node val) tid (Worker.push node)) m
              × (contains ns m ≡ false))
            z (inr (inr dead), (nz, update_self s.live node true, unretired), absent))
        (λ n p. inr (ap s.live (cc (p)) ∙ dead)) (λ n h. cc (h)) (ground arith),
    map-update s.value ns node val (contains-absent ns node absent),
  )
    where
      other : (n : ℕ) → s.live n ≡ true → node ≢ n
      other n lives z = cc (z, lives, dead)

      unretired : s.retired node ≡ false
      unretired = elim (Bool-cases (s.retired node)) [
        | inl gone ↦ absurd (cc (dead, v.retired_live node gone))
        | inr new ↦ new
      ]

      absent : contains ns node ≡ false
      absent = elim (Bool-cases (contains ns node)) [
        | inl has ↦ absurd (cc (dead, (v.inside node has).1))
        | inr new ↦ new
      ]

  pub set_next :
      (tid node t : ℕ)
      → s.worker tid ≡ Worker.push_store node t
      → Inv
          (record (at s tid (Worker.push_cas node t)) { next = update s.next node t })
          ns
          (update own tid (own tid))
  set_next tid node t e =
      let has : contains (own tid) node ≡ true = known v tid _ e in
      let ((nz, lives, unused), out) = v.owns tid node has in
      step-Inv v (record (at s tid (Worker.push_cas node t)) { next = update s.next node t }) ns tid
        (Worker.push_cas node t) (own tid) refl
        (λ n nz' lives' p. update_ne s.next t (λ z. p (ap pushing e ∙ ap some z))) (λ n h. h)
        (λ n h k. h) v.retired_live
        (Chain-away s.next 0 ns node t (λ z. nz (sym z)) (contains-absent ns node out) v.chain)
        v.simple v.inside (λ n h. inl h)
        (λ n h. let (used, out') = v.owns tid n h in (inl h, used, out'))
        (λ n p. inl (ap pushing e ∙ p)) (λ n h. cc (h)) (has, update_self s.next node t)

  pub push :
      (tid node t : ℕ)
      → s.worker tid ≡ Worker.push_cas node t
      → s.next 0 ≡ t
      → Inv
          (record (at s tid Worker.idle) { next = update s.next 0 node })
          (node ∷ ns)
          (update own tid [])
  push tid node t e same =
      let (has, linked) = known v tid _ e in
      let ((nz, lives, unused), out) = v.owns tid node has in
      step-Inv v (record (at s tid Worker.idle) { next = update s.next 0 node }) (node ∷ ns) tid
        Worker.idle [] refl (λ n nz' lives' p. frame node n nz') (λ n h. h) (λ n h k. h)
        v.retired_live
        (
          update_self s.next 0 node,
          nz,
          Starts-Chain (update s.next 0 node) node (s.next 0) ns
              (frame node node nz ∙ linked ∙ sym same)
              (Starts-same s.next (update s.next 0 node) (s.next 0) ns (in_frame node ns nonzero)
                (Chain-Starts s.next 0 ns v.chain)),
        )
        (contains-absent ns node out, v.simple)
        (λ n h. elim (contains-cons node ns n h) [
          | inl z ↦ subst (IsUsed s) z (nz, lives, unused)
          | inr old ↦ v.inside n old
        ])
        (λ n h. elim (contains-cons node ns n h) [
          | inl z ↦ inr (subst (λ m. contains (own tid) m ≡ true) z has)
          | inr old ↦ inl old
        ])
        (λ n h. cc (h)) (λ n p. cc (p)) (λ n h. cc (h)) tt

  pub take_all :
      (tid t : ℕ)
      → s.worker tid ≡ Worker.clear_cas t
      → s.next 0 ≡ t
      → Inv
          (record (at s tid (Worker.clearing t 0)) { next = update s.next 0 0 })
          []
          (update own tid ns)
  take_all tid t e same =
      step-Inv v (record (at s tid (Worker.clearing t 0)) { next = update s.next 0 0 }) [] tid
        (Worker.clearing t 0) ns refl (λ n nz lives p. frame 0 n nz) (λ n h. h) (λ n h k. h)
        v.retired_live (update_self s.next 0 0) tt (λ n h. cc (h)) (λ n h. cc (h))
        (λ n h. (inr (inl h), v.inside n h, refl)) (λ n p. cc (p)) (λ n h. cc (h))
        (
          Starts-same s.next (update s.next 0 0) t ns (in_frame 0 ns nonzero)
              (subst (λ x. Starts s.next x ns) same (Chain-Starts s.next 0 ns v.chain)),
          v.simple,
        )

  -- What a thread owns is retired, and it keeps the rest.
  pub retire_node :
      (tid p : ℕ) (w : Worker) (mine : List ℕ)
      → contains (own tid) p ≡ true
      → ((n : ℕ) → contains mine n ≡ true → (contains (own tid) n ≡ true) × (p ≢ n))
      → pushing w ≡ none
      → holds w ≡ none
      → IsPlace s mine w
      → Inv (record (at s tid w) { retired = update s.retired p true }) ns (update own tid mine)
  retire_node tid p w mine has rest no_push no_hold place =
      step-Inv v (record (at s tid w) { retired = update s.retired p true }) ns tid w mine refl
        (λ n nz lives q. refl) (λ n h. h)
        (λ n h k. update_ne s.retired true (λ z. cc (z, k, has)) ∙ h)
        (λ n h. elim (ℕ_discrete p n) [
          | yes z ↦ ap s.live (sym z) ∙ (v.owns tid p has).0.1
          | no ne ↦ v.retired_live n (sym (update_ne s.retired true ne) ∙ h)
        ])
        v.chain v.simple
        (λ n h.
          let (nz, lives, unused) = v.inside n h in
          let (_, out) = v.owns tid p has in
          (nz, lives, update_ne s.retired true (λ z. cc (z, h, out)) ∙ unused))
        (λ n h. inl h)
        (λ n h.
          let (mine_too, ne) = rest n h in
          let ((nz, lives, unused), out) = v.owns tid n mine_too in
          (inl mine_too, (nz, lives, update_ne s.retired true ne ∙ unused), out))
        (λ n q. cc (q, no_push)) (λ n h. cc (h, no_hold))
        (IsPlace-same s (record (at s tid w) { retired = update s.retired p true }) mine w
          (λ n h. refl) place)
