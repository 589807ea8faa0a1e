-- ===== src/OrderedList/Michael/Invariant.antt =====
-- The invariant of Michael's list: a sorted chain of nodes, and what the place of each thread says of it.
use temp_data_structure_benc.Prelude.{
  ℕ, ◌≡◌, ◌≢◌, ◌<◌, ◌⊎◌, ◌∙◌, true, false, Option, none, some, List, [], update, refl, sym, ap,
  update_self, update_ne, inl, inr,
}
use mathlib.Core.Path.{subst}
use native.Mathlib.Decide.{ℕ_discrete}
use temp_data_structure_benc.Prelude.Sort.{contains, Ascending}
use temp_data_structure_benc.Queue.TwoLock.Chain.{Chain}
use temp_data_structure_benc.OrderedList.Michael.{Worker, System, start, node_of}

-- The node that a thread owns, and the key that it is working on.
abbrev pub owned : Worker → Option ℕ
owned Worker.idle = none
owned (Worker.try_again purpose key) = node_of purpose
owned (Worker.looping purpose key prev cur) = node_of purpose
owned (Worker.reload purpose key prev cur next) = node_of purpose
owned (Worker.recheck purpose key prev cur next) = node_of purpose
owned (Worker.found purpose key cur) = node_of purpose
owned (Worker.missing purpose key prev cur) = node_of purpose
owned (Worker.link purpose key prev cur) = node_of purpose
owned (Worker.apply cur val is_new) = none
owned (Worker.apply_change cur val) = none

abbrev pub key_of : Worker → ℕ
key_of Worker.idle = 0
key_of (Worker.try_again purpose key) = key
key_of (Worker.looping purpose key prev cur) = key
key_of (Worker.reload purpose key prev cur next) = key
key_of (Worker.recheck purpose key prev cur next) = key
key_of (Worker.found purpose key cur) = key
key_of (Worker.missing purpose key prev cur) = key
key_of (Worker.link purpose key prev cur) = key
key_of (Worker.apply cur val is_new) = 0
key_of (Worker.apply_change cur val) = 0

-- A link to which a node with the key may be linked, and the node after it.
abbrev pub IsBefore : System → List ℕ → ℕ → ℕ → Type 0
IsBefore s ns k prev = (prev ≡ 0) ⊎ ((contains ns prev ≡ true) × (s.key prev < k))

abbrev pub IsPointer : List ℕ → ℕ → Type 0
IsPointer ns cur = cur ≢ 0 → contains ns cur ≡ true

abbrev pub IsAfter : System → List ℕ → ℕ → ℕ → Type 0
IsAfter s ns k cur = cur ≢ 0 → (contains ns cur ≡ true) × (k < s.key cur)

abbrev pub IsPlace : System → List ℕ → Worker → Type 0
IsPlace s ns Worker.idle = Unit
IsPlace s ns (Worker.try_again purpose k) = Unit
IsPlace s ns (Worker.looping purpose k prev cur) = IsBefore s ns k prev × IsPointer ns cur
IsPlace s ns (Worker.reload purpose k prev cur next) =
    IsBefore s ns k prev × (contains ns cur ≡ true) × IsPointer ns next
IsPlace s ns (Worker.recheck purpose k prev cur next) =
    IsBefore s ns k prev × (contains ns cur ≡ true) × IsPointer ns next
IsPlace s ns (Worker.found purpose k cur) = (contains ns cur ≡ true) × (s.key cur ≡ k)
IsPlace s ns (Worker.missing purpose k prev cur) = IsBefore s ns k prev × IsAfter s ns k cur
IsPlace s ns (Worker.link purpose k prev cur) =
    IsBefore s ns k prev
    × IsAfter s ns k cur
    × ((node : ℕ) → node_of purpose ≡ some node → s.next node ≡ cur)
IsPlace s ns (Worker.apply cur val is_new) = contains ns cur ≡ true
IsPlace s ns (Worker.apply_change cur val) = contains ns cur ≡ true

-- A node that is allocated and not in the list.
abbrev pub IsPrivate : System → List ℕ → ℕ → Type 0
IsPrivate s ns n = (n ≢ 0) × (s.live n ≡ true) × (contains ns n ≡ false)

pub record Inv (s : System) (ns : List ℕ) : Type 0 where
  pub chain : Chain s.next 0 ns
  pub sorted : Ascending s.key ns
  pub lives : (n : ℕ) → contains ns n ≡ true → s.live n ≡ true
  pub owns :
      (t n : ℕ) → owned (s.worker t) ≡ some n → IsPrivate s ns n × (s.key n ≡ key_of (s.worker t))
  pub once : (t u n : ℕ) → owned (s.worker t) ≡ some n → owned (s.worker u) ≡ some n → t ≡ u
  pub place : (t : ℕ) → IsPlace s ns (s.worker t)

pub start-Inv : Inv start []
start-Inv = record {
  chain = refl;
  sorted = tt;
  lives = λ n h. cc;
  owns = λ t n h. cc;
  once = λ t u n h k. cc;
  place = λ t. tt;
}

-- Nodes are only added to the list, and those in it keep their keys.
abbrev pub IsGrown : System → List ℕ → System → List ℕ → Type 0
IsGrown s ns s' ns' =
    (n : ℕ) → contains ns n ≡ true → (contains ns' n ≡ true) × (s'.key n ≡ s.key n)

module _ (s s' : System) (ns ns' : List ℕ) (grown : IsGrown s ns s' ns') where
  IsBefore-grown : (k prev : ℕ) → IsBefore s ns k prev → IsBefore s' ns' k prev
  IsBefore-grown k prev (inl e) = inl e
  IsBefore-grown k prev (inr h) =
      let g = grown prev h.0 in inr (g.0, subst (λ x. x < k) (sym g.1) h.1)

  IsAfter-grown : (k cur : ℕ) → IsAfter s ns k cur → IsAfter s' ns' k cur
  IsAfter-grown k cur h nz =
      let old = h nz in let g = grown cur old.0 in (g.0, subst (λ x. k < x) (sym g.1) old.1)

  pub IsPlace-grown :
      (w : Worker)
      → ((n : ℕ) → owned w ≡ some n → s'.next n ≡ s.next n)
      → IsPlace s ns w
      → IsPlace s' ns' w
  IsPlace-grown Worker.idle keep h = tt
  IsPlace-grown (Worker.try_again purpose k) keep h = tt
  IsPlace-grown (Worker.looping purpose k prev cur) keep h =
      (IsBefore-grown k prev h.0, λ nz. (grown cur (h.1 nz)).0)
  IsPlace-grown (Worker.reload purpose k prev cur next) keep h =
      (IsBefore-grown k prev h.0, (grown cur h.1).0, λ nz. (grown next (h.2 nz)).0)
  IsPlace-grown (Worker.recheck purpose k prev cur next) keep h =
      (IsBefore-grown k prev h.0, (grown cur h.1).0, λ nz. (grown next (h.2 nz)).0)
  IsPlace-grown (Worker.found purpose k cur) keep h = let g = grown cur h.0 in (g.0, g.1 ∙ h.1)
  IsPlace-grown (Worker.missing purpose k prev cur) keep h =
      (IsBefore-grown k prev h.0, IsAfter-grown k cur h.1)
  IsPlace-grown (Worker.link purpose k prev cur) keep h =
      (IsBefore-grown k prev h.0, IsAfter-grown k cur h.1, λ node own. keep node own ∙ h.2 node own)
  IsPlace-grown (Worker.apply cur val is_new) keep h = (grown cur h).0
  IsPlace-grown (Worker.apply_change cur val) keep h = (grown cur h).0

-- What is known of the threads other than `tid`: their nodes stay theirs.
abbrev pub IsSpared : System → System → List ℕ → ℕ → Type 0
IsSpared s s' ns' tid =
    (u n : ℕ)
    → tid ≢ u
    → owned (s.worker u) ≡ some n
    → IsPrivate s' ns' n × (s'.key n ≡ s.key n) × (s'.next n ≡ s.next n)

module _ {s : System} {ns : List ℕ} (v : Inv s ns) where
  pub known : (t : ℕ) (w : Worker) → s.worker t ≡ w → IsPlace s ns w
  known t w e = subst (IsPlace s ns) e (v.place t)

  -- A step of the thread `tid` to `w`.
  pub step-Inv :
      (s' : System) (ns' : List ℕ) (tid : ℕ) (w : Worker)
      → s'.worker ≡ update s.worker tid w
      → IsGrown s ns s' ns'
      → IsSpared s s' ns' tid
      → Chain s'.next 0 ns'
      → Ascending s'.key ns'
      → ((n : ℕ) → contains ns' n ≡ true → s'.live n ≡ true)
      → ((n : ℕ)
          → owned w ≡ some n
          → ((owned (s.worker tid) ≡ some n) ⊎ (s.live n ≡ false))
            × IsPrivate s' ns' n
            × (s'.key n ≡ key_of w))
      → IsPlace s' ns' w
      → Inv s' ns'
  step-Inv s' ns' tid w moved grown spared chain sorted lives own place = record {
    chain = chain;
    sorted = sorted;
    lives = lives;
    owns = λ t n h. elim (now t) [
      | inl (e, is_w) ↦
          let (_, private, key) = own n (ap owned (sym is_w) ∙ h) in
          (private, key ∙ ap key_of (sym is_w))
      | inr (ne, same) ↦
          let h' : owned (s.worker t) ≡ some n = ap owned (sym same) ∙ h in
          let (private, key, _) = spared t n ne h' in
          (private, key ∙ (v.owns t n h').1 ∙ ap key_of (sym same))
    ];
    once = λ t u n h k. elim (now t) [
      | inl (e, is_w) ↦ elim (now u) [
        | inl (e', _) ↦ sym e ∙ e'
        | inr (ne, same) ↦ absurd (apart u n ne (ap owned (sym is_w) ∙ h) (ap owned (sym same) ∙ k))
      ]
      | inr (ne, same) ↦ elim (now u) [
        | inl (e', is_w) ↦ absurd (apart t n ne (ap owned (sym is_w) ∙ k) (ap owned (sym same) ∙ h))
        | inr (ne', same') ↦ v.once t u n (ap owned (sym same) ∙ h) (ap owned (sym same') ∙ k)
      ]
    ];
    place = λ t. elim (now t) [
      | inl (e, is_w) ↦ subst (IsPlace s' ns') (sym is_w) place
      | inr (ne, same) ↦
          subst (IsPlace s' ns') (sym same)
            (IsPlace-grown s s' ns ns' grown (s.worker t) (λ n o. (spared t n ne o).2) (v.place t))
    ];
  }
    where
      now : (t : ℕ) → ((tid ≡ t) × (s'.worker t ≡ w)) ⊎ ((tid ≢ t) × (s'.worker t ≡ s.worker t))
      now t = elim (ℕ_discrete tid t) [
        | yes e ↦ inl (
          e,
          ap (λ a. a t) moved ∙ ap (update s.worker tid w) (sym e) ∙ update_self s.worker tid w,
        )
        | no ne ↦ inr (ne, ap (λ a. a t) moved ∙ update_ne s.worker w ne)
      ]

      apart : (u n : ℕ) → tid ≢ u → owned w ≡ some n → owned (s.worker u) ≡ some n → ⊥
      apart u n ne mine theirs = elim ((own n mine).0) [
        | inl old ↦ ne (v.once tid u n old theirs)
        | inr dead ↦ cc (dead, (v.owns u n theirs).0.1)
      ]
