-- ===== src/Stack/Treiber/Steps.antt =====
-- What each step of Treiber's stack does to its items, and that it keeps the invariant.
use temp_data_structure_benc.Prelude.{
  ℕ, suc, ◌≡◌, ◌≢◌, ◌⊎◌, ◌∷◌, ◌∙◌, true, false, List, [], map, Array, update, refl, sym, ap,
  update_self, inl, inr, arith, Bool-cases,
}
use mathlib.Core.Path.{subst}
use temp_data_structure_benc.Prelude.Sort.{contains}
use temp_data_structure_benc.Prelude.Sort.{contains-All}
use temp_data_structure_benc.Stack.Treiber.{
  Worker, System, at, holds, Step, begin_push, push_load, push_set, push_fails, push_true,
  pop_false, pop_load, pop_guarded, pop_same, load_next, pop_true, take_data, retire, clear_empty,
  clear_load, clear_guarded, clear_same, clear_true, clear_next, clear_one, release, Reach, here,
  next,
}
use temp_data_structure_benc.Stack.Treiber.Invariant.{
  pushing, Starts, Chain-Starts, Starts-same, IsSimple, IsPlace, IsUsed, Inv, start-Inv,
}
use temp_data_structure_benc.Stack.Treiber.Kinds.{known, step-Inv, release-Inv}
use temp_data_structure_benc.Stack.Treiber.Keeps.{
  Starts-Chain, frame, in_frame, nonzero, move, allocate, set_next, push, take_all, retire_node,
}

-- What a step does to a stack of items.
pub data Effect : Type 0 where
  silent : Effect
  pushed : (item : ℕ) → Effect
  popped : (item : ℕ) → Effect
  cleared : Effect
  found_empty : Effect

abbrev pub effect : {s : System} {tid : ℕ} {t : System} → Step s tid t → Effect
effect {s = s} (push_true node t e same) = Effect.pushed (s.value node)
effect (pop_false e null) = Effect.found_empty
effect {s = s} (pop_true t succ e same) = Effect.popped (s.value t)
effect (clear_empty e null) = Effect.found_empty
effect (clear_true t e same) = Effect.cleared
effect _ = Effect.silent

-- The items of the stack, the last one in first, before and after.
abbrev pub Does : Effect → List ℕ → List ℕ → Type 0
Does Effect.silent xs ys = ys ≡ xs
Does (Effect.pushed item) xs ys = ys ≡ item ∷ xs
Does (Effect.popped item) xs ys = xs ≡ item ∷ ys
Does Effect.cleared xs ys = ys ≡ []
Does Effect.found_empty xs ys = (xs ≡ []) × (ys ≡ [])

-- The nodes of the stack and those of the threads after a step.
abbrev pub Result : System → List ℕ → System → Effect → Type 0
Result s ns t e =
    (ns' : List ℕ) × (own' : Array (List ℕ)) × Inv t ns' own'
    × Does e (map s.value ns) (map t.value ns')

-- The second loop of clear goes on to the next node.
clearing_next :
    (s : System) (mine : List ℕ) (p removed : ℕ)
    → Starts s.next p mine × IsSimple mine
    → p ≢ 0
    → IsPlace s mine (Worker.clear_retire p (s.next p) removed)
clearing_next s [] p removed h nz = absurd (nz h.0)
clearing_next s (m ∷ ms) p removed ((e, nz', c), d) nz = (
  ms,
  ap (λ x. x ∷ ms) (sym e),
  subst (λ x. Starts s.next (s.next x) ms) (sym e) (Chain-Starts s.next m ms c),
  d,
)

module _ {s : System} {own : Array (List ℕ)} where
  -- The compare and swap of pop takes the first node.
  pop :
      (ns : List ℕ) (tid t succ : ℕ)
      → Inv s ns own
      → s.worker tid ≡ Worker.pop_cas t succ
      → s.next 0 ≡ t
      → Result s ns
          (record (at s tid (Worker.taken t)) { next = update s.next 0 succ })
          (Effect.popped (s.value t))
  pop [] tid t succ v e same = absurd ((known v tid _ e).0 (sym same ∙ v.chain))
  pop (n ∷ ns) tid t succ v e same =
      let (nz, linked) = known v tid _ e in
      let is_top : n ≡ t = sym v.chain.0 ∙ same in
      let used : IsUsed s t = v.inside t (ground (arith, is_top)) in
      (
        ns,
        update own tid (t ∷ []),
        step-Inv v (record (at s tid (Worker.taken t)) { next = update s.next 0 succ }) ns tid
            (Worker.taken t) (t ∷ []) refl (λ m nz' lives p. frame v succ m nz') (λ m h. h)
            (λ m h k. h) v.retired_live
            (Starts-Chain (update s.next 0 succ) 0 (s.next n) ns
              (update_self s.next 0 succ ∙ sym linked ∙ ap s.next (sym is_top))
              (Starts-same s.next (update s.next 0 succ) (s.next n) ns
                (in_frame v succ ns (nonzero v).1) (Chain-Starts s.next n ns v.chain.2)))
            v.simple.1 (λ m h. v.inside m (ground (arith, h))) (λ m h. inl (ground (arith, h)))
            (λ m h.
              let z : t ≡ m = ground (arith, h) in
              subst
                (λ k.
                  ((contains (own tid) k ≡ true)
                    ⊎ (contains (n ∷ ns) k ≡ true)
                    ⊎ (s.live k ≡ false))
                  × IsUsed s k
                  × (contains ns k ≡ false))
                z (inr (inl (ground (arith, is_top))), used, out t is_top))
            (λ m p. cc (p)) (λ m h. cc (h)) (ground arith),
        ap (λ k. s.value k ∷ map s.value ns) is_top,
      )
    where
      out : (k : ℕ) → n ≡ k → contains ns k ≡ false
      out k z = elim (Bool-cases (contains ns k)) [
        | inl has ↦ absurd (contains-All (λ m. m ≢ n) ns k v.simple.0 has (sym z))
        | inr absent ↦ absent
      ]

  -- NULL in `m_pTop`.
  empty : (ns : List ℕ) → Inv s ns own → s.next 0 ≡ 0 → map s.value ns ≡ []
  empty [] v null = refl
  empty (n ∷ ns) v null = absurd (v.chain.1 (sym v.chain.0 ∙ null))

  top_inside : (ns : List ℕ) (t : ℕ) → Inv s ns own → s.next 0 ≡ t → t ≢ 0 → contains ns t ≡ true
  top_inside [] t v e nz = absurd (nz (sym e ∙ v.chain))
  top_inside (n ∷ ns) t v e nz = ground (arith, v.chain.0, e)

  clear_retired :
      (ns : List ℕ) (tid p top removed : ℕ)
      → Inv s ns own
      → s.worker tid ≡ Worker.clear_retire p top removed
      → Result s ns
          (record (at s tid (Worker.clearing top (suc removed))) {
            retired = update s.retired p true;
          })
          Effect.silent
  clear_retired ns tid p top removed v e =
      let (mine, is_own, c, d) = known v tid _ e in
      let d' : IsSimple (p ∷ mine) = subst IsSimple is_own d in
      (
        ns,
        update own tid mine,
        retire_node v tid p (Worker.clearing top (suc removed)) mine
            (subst (λ l. contains l p ≡ true) (sym is_own) (ground arith))
            (λ n h. (
              subst (λ l. contains l n ≡ true) (sym is_own) (ground (arith, h)),
              λ z. contains-All (λ m. m ≢ p) mine n d'.0 h (sym z),
            ))
            refl refl (c, d'.1),
        refl,
      )

pub Step-Inv :
    {s : System} {tid : ℕ} {t : System} {ns : List ℕ} {own : Array (List ℕ)} (st : Step s tid t)
    → Inv s ns own
    → Result s ns t (effect st)
Step-Inv {tid = tid} {ns = ns} (begin_push node val e nz dead) v =
    let (v', same) = allocate v tid node val e nz dead in (ns, _, v', same)
Step-Inv {s = s} {tid = tid} {ns = ns} (push_load node e) v =
    (ns, _, move v tid _ (λ n p. ap pushing e ∙ p) (λ n h. cc (h)) (known v tid _ e), refl)
Step-Inv {tid = tid} {ns = ns} (push_set node t e) v = (ns, _, set_next v tid node t e, refl)
Step-Inv {tid = tid} {ns = ns} (push_fails node t e ne) v =
    (ns, _, move v tid _ (λ n p. ap pushing e ∙ p) (λ n h. cc (h)) (known v tid _ e).0, refl)
Step-Inv {tid = tid} {ns = ns} (push_true node t e same) v =
    (node ∷ ns, _, push v tid node t e same, refl)
Step-Inv {ns = ns} {own = own} (pop_false e null) v =
    (ns, _, move v _ _ (λ n p. cc (p)) (λ n h. cc (h)) tt, (empty ns v null, empty ns v null))
Step-Inv {tid = tid} {ns = ns} (pop_load e nz) v =
    (ns, _, move v tid _ (λ n p. cc (p)) (λ n h. cc (h)) nz, refl)
Step-Inv {tid = tid} {ns = ns} (pop_guarded t e) v =
    (ns, _, move v tid _ (λ n p. cc (p)) (λ n h. cc (h)) (known v tid _ e), refl)
Step-Inv {tid = tid} {ns = ns} (pop_same t e same) v =
    let nz = known v tid _ e in
    (
      ns,
      _,
      move v tid _ (λ n p. cc (p))
          (λ n h. inr (subst (λ k. contains ns k ≡ true) (cc (h)) (top_inside ns t v same nz))) nz,
      refl,
    )
Step-Inv {tid = tid} {ns = ns} (load_next t e) v = (
  ns,
  _,
  move v tid _ (λ n p. cc (p)) (λ n h. inl (ap holds e ∙ h)) (known v tid _ e, refl),
  refl,
)
Step-Inv {tid = tid} {ns = ns} (pop_true t succ e same) v = pop ns tid t succ v e same
Step-Inv {tid = tid} {ns = ns} (take_data t e) v =
    (ns, _, move v tid _ (λ n p. cc (p)) (λ n h. cc (h)) (known v tid _ e), refl)
Step-Inv {tid = tid} {ns = ns} (retire t e) v =
    (ns, _, retire_node v tid t Worker.idle [] (known v tid _ e) (λ n h. cc (h)) refl refl tt, refl)
Step-Inv {ns = ns} (clear_empty e null) v =
    (ns, _, move v _ _ (λ n p. cc (p)) (λ n h. cc (h)) tt, (empty ns v null, empty ns v null))
Step-Inv {tid = tid} {ns = ns} (clear_load e nz) v =
    (ns, _, move v tid _ (λ n p. cc (p)) (λ n h. cc (h)) nz, refl)
Step-Inv {tid = tid} {ns = ns} (clear_guarded t e) v =
    (ns, _, move v tid _ (λ n p. cc (p)) (λ n h. cc (h)) (known v tid _ e), refl)
Step-Inv {tid = tid} {ns = ns} (clear_same t e same) v =
    let nz = known v tid _ e in
    (
      ns,
      _,
      move v tid _ (λ n p. cc (p))
          (λ n h. inr (subst (λ k. contains ns k ≡ true) (cc (h)) (top_inside ns t v same nz))) nz,
      refl,
    )
Step-Inv {tid = tid} (clear_true t e same) v = ([], _, take_all v tid t e same, refl)
Step-Inv {s = s} {tid = tid} {ns = ns} {own = own} (clear_next p removed e nz) v = (
  ns,
  _,
  move v tid _ (λ n q. cc (q)) (λ n h. cc (h))
      (clearing_next s (own tid) p removed (known v tid _ e) nz),
  refl,
)
Step-Inv {tid = tid} {ns = ns} (clear_one p top removed e) v =
    clear_retired ns tid p top removed v e
Step-Inv {ns = ns} {own = own} (release n gone unheld) v =
    (ns, own, release-Inv v n gone unheld, refl)
Step-Inv {tid = tid} {ns = ns} _ v = (ns, _, move v tid _ (λ n p. cc (p)) (λ n h. cc (h)) tt, refl)

pub Reach-Inv : {s : System} → Reach s → (ns : List ℕ) × (own : Array (List ℕ)) × Inv s ns own
Reach-Inv here = ([], (λ _. []), start-Inv)
Reach-Inv (next tid r st) =
    let (ns, own, v) = Reach-Inv r in let (ns', own', v', _) = Step-Inv st v in (ns', own', v')
