-- ===== src/Stack/Treiber/Kinds.antt =====
-- The steps of a thread and of the collector on Treiber's stack keep the invariant.
use temp_data_structure_benc.Prelude.{
  ℕ, ◌≡◌, ◌≢◌, ◌⊎◌, ◌∙◌, true, false, some, List, Array, update, refl, sym, ap, update_self,
  update_ne, inl, inr, arith, Bool-cases,
}
use mathlib.Core.Path.{subst}
use native.Mathlib.Decide.{ℕ_discrete}
use temp_data_structure_benc.Prelude.Sort.{contains}
use temp_data_structure_benc.Queue.TwoLock.Chain.{Chain}
use temp_data_structure_benc.Stack.Treiber.{Worker, System, holds}
use temp_data_structure_benc.Stack.Treiber.Invariant.{
  pushing, IsSimple, IsPlace, IsUsed, Inv, IsPlace-same, pushing-owned, pushing-holds,
}

module _ {s : System} {ns : List ℕ} {own : Array (List ℕ)} (v : Inv s ns own) where
  pub known : (t : ℕ) (w : Worker) → s.worker t ≡ w → IsPlace s (own t) w
  known t w e = subst (IsPlace s (own t)) e (v.place t)

  -- What another thread owns, `tid` does not.
  not_mine : (tid u n : ℕ) → tid ≢ u → contains (own u) n ≡ true → contains (own tid) n ≡ false
  not_mine tid u n ne h = elim (Bool-cases (contains (own tid) n)) [
    | inl has ↦ absurd (ne (v.once tid u n has h))
    | inr absent ↦ absent
  ]

  pub owned_by : (u n : ℕ) → pushing (s.worker u) ≡ some n → contains (own u) n ≡ true
  owned_by u n e = pushing-owned s (own u) (s.worker u) n (v.place u) e

  -- A step of the thread `tid` to `w`, which owns `mine` afterwards.
  pub step-Inv :
      (s' : System) (ns' : List ℕ) (tid : ℕ) (w : Worker) (mine : List ℕ)
      → s'.worker ≡ update s.worker tid w
      → ((n : ℕ) → n ≢ 0 → s.live n ≡ true → pushing (s.worker tid) ≢ some n → s'.next n ≡ s.next n)
      → ((n : ℕ) → s.live n ≡ true → s'.live n ≡ true)
      → ((n : ℕ) → s.retired n ≡ false → contains (own tid) n ≡ false → s'.retired n ≡ false)
      → ((n : ℕ) → s'.retired n ≡ true → s'.live n ≡ true)
      → Chain s'.next 0 ns'
      → IsSimple ns'
      → ((n : ℕ) → contains ns' n ≡ true → IsUsed s' n)
      → ((n : ℕ) → contains ns' n ≡ true → (contains ns n ≡ true) ⊎ (contains (own tid) n ≡ true))
      → ((n : ℕ)
          → contains mine n ≡ true
          → ((contains (own tid) n ≡ true) ⊎ (contains ns n ≡ true) ⊎ (s.live n ≡ false))
            × IsUsed s' n
            × (contains ns' n ≡ false))
      → ((n : ℕ) → pushing w ≡ some n → (pushing (s.worker tid) ≡ some n) ⊎ (s.live n ≡ false))
      → ((n : ℕ) → holds w ≡ some n → (holds (s.worker tid) ≡ some n) ⊎ (contains ns n ≡ true))
      → IsPlace s' mine w
      → Inv s' ns' (update own tid mine)
  step-Inv s' ns' tid w mine moved frame alive unretired retired_live chain simple inside before
        mine_from push_from hold_from place =
      record {
        chain = chain;
        simple = simple;
        inside = inside;
        retired_live = retired_live;
        owns = λ t n h. elim (now t) [
          | inl (_, _, is_mine) ↦
              let (_, used, out) = mine_from n (subst (λ l. contains l n ≡ true) is_mine h) in
              (used, out)
          | inr (ne, _, same) ↦ kept t n ne (subst (λ l. contains l n ≡ true) same h)
        ];
        once = λ t u n h k. elim (now t) [
          | inl (e, _, is_mine) ↦ elim (now u) [
            | inl (e', _, _) ↦ sym e ∙ e'
            | inr (ne, _, same) ↦ absurd (
                apart u n ne (subst (λ l. contains l n ≡ true) is_mine h)
                  (subst (λ l. contains l n ≡ true) same k))
          ]
          | inr (ne, _, same) ↦ elim (now u) [
            | inl (e', _, is_mine) ↦ absurd (
                apart t n ne (subst (λ l. contains l n ≡ true) is_mine k)
                  (subst (λ l. contains l n ≡ true) same h))
            | inr (_, _, same') ↦
                v.once t u n (subst (λ l. contains l n ≡ true) same h)
                  (subst (λ l. contains l n ≡ true) same' k)
          ]
        ];
        held = λ t n h. elim (now t) [
          | inl (_, is_w, _) ↦ elim (hold_from n (ap holds (sym is_w) ∙ h)) [
            | inl old ↦ let (nz, lives) = v.held tid n old in (nz, alive n lives)
            | inr has ↦ let (nz, lives, _) = v.inside n has in (nz, alive n lives)
          ]
          | inr (_, same, _) ↦
              let (nz, lives) = v.held t n (ap holds (sym same) ∙ h) in (nz, alive n lives)
        ];
        fresh = λ t u n h k. elim (now t) [
          | inl (_, is_w, _) ↦ elim (now u) [
            | inl (_, is_w', _) ↦
                pushing-holds w n n (ap pushing (sym is_w') ∙ k) (ap holds (sym is_w) ∙ h)
            | inr (_, same, _) ↦
                let k' : pushing (s.worker u) ≡ some n = ap pushing (sym same) ∙ k in
                elim (hold_from n (ap holds (sym is_w) ∙ h)) [
                  | inl old ↦ v.fresh tid u n old k'
                  | inr has ↦ cc (has, (v.owns u n (owned_by u n k')).1)
                ]
          ]
          | inr (_, same, _) ↦
              let h' : holds (s.worker t) ≡ some n = ap holds (sym same) ∙ h in
              elim (now u) [
                | inl (_, is_w, _) ↦ elim (push_from n (ap pushing (sym is_w) ∙ k)) [
                  | inl old ↦ v.fresh t tid n h' old
                  | inr dead ↦ cc (dead, (v.held t n h').1)
                ]
                | inr (_, same', _) ↦ v.fresh t u n h' (ap pushing (sym same') ∙ k)
              ]
        ];
        place = λ t. elim (now t) [
          | inl (_, is_w, is_mine) ↦
              subst (IsPlace s' (update own tid mine t)) (sym is_w)
                (subst (λ l. IsPlace s' l w) (sym is_mine) place)
          | inr (ne, same, same') ↦ subst (IsPlace s' (update own tid mine t)) (sym same) (
              subst (λ l. IsPlace s' l (s.worker t)) (sym same')
                (IsPlace-same s s' (own t) (s.worker t) (links t ne) (v.place t)))
        ];
      }
    where
      now :
          (t : ℕ)
          → ((tid ≡ t) × (s'.worker t ≡ w) × (update own tid mine t ≡ mine))
            ⊎ ((tid ≢ t) × (s'.worker t ≡ s.worker t) × (update own tid mine t ≡ own t))
      now t = elim (ℕ_discrete tid t) [
        | yes e ↦ inl (
          e,
          ap (λ a. a t) moved ∙ ap (update s.worker tid w) (sym e) ∙ update_self s.worker tid w,
          ap (update own tid mine) (sym e) ∙ update_self own tid mine,
        )
        | no ne ↦ inr (ne, ap (λ a. a t) moved ∙ update_ne s.worker w ne, update_ne own mine ne)
      ]

      kept :
          (u n : ℕ) → tid ≢ u → contains (own u) n ≡ true → IsUsed s' n × (contains ns' n ≡ false)
      kept u n ne h =
          let ((nz, lives, unused), out) = v.owns u n h in
          let other = not_mine tid u n ne h in
          (
            (nz, alive n lives, unretired n unused other),
            elim (Bool-cases (contains ns' n)) [
              | inl has ↦ elim (before n has) [
                | inl old ↦ absurd (cc (old, out))
                | inr old ↦ absurd (cc (old, other))
              ]
              | inr new ↦ new
            ],
          )

      apart : (u n : ℕ) → tid ≢ u → contains mine n ≡ true → contains (own u) n ≡ true → ⊥
      apart u n ne h k =
          let (from, _, _) = mine_from n h in
          let ((_, lives, _), out) = v.owns u n k in
          elim from [
            | inl old ↦ ne (v.once tid u n old k)
            | inr rest ↦ elim rest [ inl has ↦ cc (has, out) | inr dead ↦ cc (dead, lives) ]
          ]

      links :
          (u : ℕ)
          → tid ≢ u
          → (n : ℕ) → (contains (own u) n ≡ true) ⊎ (holds (s.worker u) ≡ some n)
          → s'.next n ≡ s.next n
      links u ne n (inl h) =
          let ((nz, lives, _), _) = v.owns u n h in
          frame n nz lives (λ p. ne (v.once tid u n (owned_by tid n p) h))
      links u ne n (inr h) =
          let (nz, lives) = v.held u n h in frame n nz lives (λ p. v.fresh u tid n h p)

  -- The collector frees a node.
  pub release-Inv :
      (n : ℕ)
      → s.retired n ≡ true
      → ((u : ℕ) → holds (s.worker u) ≢ some n)
      → Inv (record s { live = update s.live n false; retired = update s.retired n false }) ns own
  release-Inv n gone unheld = record {
    chain = v.chain;
    simple = v.simple;
    inside = λ m h. used m (v.inside m h);
    retired_live = λ m h. elim (ℕ_discrete n m) [
      | yes e ↦ absurd (ground (arith, e, h))
      | no ne ↦
          update_ne s.live false ne ∙ v.retired_live m (sym (update_ne s.retired false ne) ∙ h)
    ];
    owns = λ t m h. let (u, out) = v.owns t m h in (used m u, out);
    once = v.once;
    held = λ t m h.
        let (nz, lives) = v.held t m h in
        (nz, update_ne s.live false (λ e. unheld t (h ∙ ap some (sym e))) ∙ lives);
    fresh = v.fresh;
    place = λ t.
        IsPlace-same s
          (record s { live = update s.live n false; retired = update s.retired n false }) (own t)
          (s.worker t) (λ m h. refl) (v.place t);
  }
    where
      used :
          (m : ℕ)
          → IsUsed s m
          → IsUsed (record s { live = update s.live n false; retired = update s.retired n false }) m
      used m (nz, lives, unused) =
          let ne : n ≢ m = λ e. cc (e, gone, unused) in
          (nz, update_ne s.live false ne ∙ lives, update_ne s.retired false ne ∙ unused)
