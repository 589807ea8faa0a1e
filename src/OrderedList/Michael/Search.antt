-- ===== src/OrderedList/Michael/Search.antt =====
-- What a search of Michael's list finds, while other threads insert.
use temp_data_structure_benc.Prelude.{
  ℕ, ◌≡◌, ◌≢◌, ◌<◌, ◌⊎◌, true, Bool, List, Array, update, refl, sym, update_self, update_ne, inl,
  inr, All,
}
use mathlib.Core.Path.{subst}
use native.Mathlib.Decide.{ℕ_discrete}
use temp_data_structure_benc.Prelude.Sort.{contains}
use temp_data_structure_benc.OrderedList.Michael.{
  Worker, System, start, Step, begin_find, begin_insert, begin_insert_change, load_head, at_end,
  load_next, next_same, less, greater, ensure_alloc, Reach, here, next,
}
use temp_data_structure_benc.OrderedList.Michael.Invariant.{IsPlace, Inv, known}
use temp_data_structure_benc.OrderedList.Michael.Insert.{absent_here}
use temp_data_structure_benc.OrderedList.Michael.Sorted.{Reach-Inv, IsList, Inv-IsList}

abbrev pub IsPresent : ℕ → System → Type 0
IsPresent k s = (ns : List ℕ) × IsList s ns × ((n : ℕ) × (contains ns n ≡ true) × (s.key n ≡ k))

abbrev pub IsAbsent : ℕ → System → Type 0
IsAbsent k s = (ns : List ℕ) × IsList s ns × All (λ n. s.key n ≢ k) ns

-- What is known of a search that has met a NULL; `W k` says that the key was absent.
abbrev pub IsPast : Array ℕ → (ℕ → Type 0) → Worker → Type 0
IsPast keys W (Worker.looping purpose k prev cur) = cur ≡ 0 → W k
IsPast keys W (Worker.reload purpose k prev cur succ) = succ ≡ 0 → keys cur < k → W k
IsPast keys W (Worker.recheck purpose k prev cur succ) = succ ≡ 0 → keys cur < k → W k
IsPast keys W (Worker.missing purpose k prev cur) = W k
IsPast keys W _ = Unit

arrive :
    (s : System) (keys : Array ℕ) (tid : ℕ) (w : Worker) (W : ℕ → Type 0)
    → IsPast keys W w
    → IsPast keys W (update s.worker tid w tid)
arrive s keys tid w W = subst (IsPast keys W) (sym (update_self s.worker tid w))

module _ {func : ℕ → ℕ → Bool → ℕ} {change : ℕ → ℕ → ℕ} where
  -- The predicate held at some point of the call that the thread `tid` is in.
  abbrev pub Was : (System → Type 0) → ℕ → {s : System} → Reach func change s → Type 0
  Was P tid here = P start
  Was P tid (next {s = s} {t = t} u r st) = P t ⊎ ((s.worker tid ≢ Worker.idle) × Was P tid r)

  -- A node of the list keeps its key.
  same_key :
      {s : System} {tid : ℕ} {t : System} {ns : List ℕ}
      → Step func change s tid t
      → Inv s ns
      → (n : ℕ) → contains ns n ≡ true
      → t.key n ≡ s.key n
  same_key {s = s} (begin_insert key val node e nz dead) v n h =
      update_ne s.key key (λ z. cc (z, dead, v.lives n h))
  same_key {s = s} (begin_insert_change key val node garbage e nz dead) v n h =
      update_ne s.key key (λ z. cc (z, dead, v.lives n h))
  same_key {s = s} (ensure_alloc val key prev cur node e nz dead garbage) v n h =
      update_ne s.key key (λ z. cc (z, dead, v.lives n h))
  same_key _ v n h = refl

  -- The thread that takes the step.
  own_step :
      {s : System} {tid : ℕ} {t : System} {ns : List ℕ} (W W' : ℕ → Type 0)
      → Step func change s tid t
      → Inv s ns
      → (s.worker tid ≢ Worker.idle → (k : ℕ) → W k → W' k)
      → ((k : ℕ) → IsAbsent k t → W' k)
      → IsPast s.key W (s.worker tid)
      → IsPast t.key W' (t.worker tid)
  own_step {s = s} {tid = tid} {ns = ns} W W' (load_head purpose k e) v old new past =
      arrive s _ tid _ W'
        (λ null. new k (ns, Inv-IsList v, absent_here v k 0 (inl refl) (λ nz. absurd (nz null))))
  own_step {s = s} {tid = tid} {ns = ns} W W' (at_end purpose k prev cur e null) v old new past =
      arrive s _ tid _ W' (old (λ z. cc (e, z)) k (subst (IsPast s.key W) e past null))
  own_step {s = s} {tid = tid} {ns = ns} W W' (load_next purpose k prev cur e nz) v old new past =
      arrive s _ tid _ W' (λ null lt. new k (
        ns,
        Inv-IsList v,
        absent_here v k cur (inr ((known v tid _ e).1 nz, lt)) (λ z. absurd (z null)),
      ))
  own_step {s = s} {tid = tid} {ns = ns} W W' (next_same purpose k prev cur succ e same) v old new
        past =
      arrive s _ tid _ W'
        (λ null lt. old (λ z. cc (e, z)) k (subst (IsPast s.key W) e past null lt))
  own_step {s = s} {tid = tid} {ns = ns} W W' (less purpose k prev cur succ e same lt) v old new
        past =
      arrive s _ tid _ W' (λ null. old (λ z. cc (e, z)) k (subst (IsPast s.key W) e past null lt))
  own_step {s = s} {tid = tid} {ns = ns} W W' (greater purpose k prev cur succ e same gt) v old new
        past =
      arrive s _ tid _ W' (
        new k (
          ns,
          Inv-IsList v,
          absent_here v k prev (known v tid _ e).0 (λ _. subst (λ n. k < s.key n) (sym same) gt),
        ))
  own_step {s = s} {tid = tid} W W' _ v old new past = arrive s _ tid _ W' tt

  other_step :
      {s : System} {tid : ℕ} {t : System} {ns : List ℕ} (W W' : ℕ → Type 0) (w : Worker)
      → Step func change s tid t
      → Inv s ns
      → (w ≢ Worker.idle → (k : ℕ) → W k → W' k)
      → IsPlace s ns w
      → IsPast s.key W w
      → IsPast t.key W' w
  other_step W W' (Worker.looping purpose k prev cur) st v old place past =
      λ null. old (λ z. cc (z)) k (past null)
  other_step W W' (Worker.reload purpose k prev cur succ) st v old place past =
      λ null lt. old (λ z. cc (z)) k (past null (subst (λ x. x < k) (same_key st v cur place.1) lt))
  other_step W W' (Worker.recheck purpose k prev cur succ) st v old place past =
      λ null lt. old (λ z. cc (z)) k (past null (subst (λ x. x < k) (same_key st v cur place.1) lt))
  other_step W W' (Worker.missing purpose k prev cur) st v old place past = old (λ z. cc (z)) k past
  other_step W W' _ st v old place past = tt

  stays :
      {s : System} {tid : ℕ} {t : System}
      → Step func change s tid t
      → (u : ℕ) → tid ≢ u
      → t.worker u ≡ s.worker u
  stays {s = s} (begin_find key e) u ne = update_ne s.worker _ ne
  stays {s = s} _ u ne = update_ne s.worker _ ne

  Reach-IsPast :
      {s : System} (r : Reach func change s) (tid : ℕ)
      → IsPast s.key (λ k. Was (IsAbsent k) tid r) (s.worker tid)
  Reach-IsPast here tid = tt
  Reach-IsPast (next {s = s} {t = t} u r st) tid = elim (ℕ_discrete u tid) [
    | yes e ↦
        subst (λ i. IsPast t.key (λ k. Was (IsAbsent k) i (next u r st)) (t.worker i)) e
          (own_step (λ k. Was (IsAbsent k) u r) (λ k. Was (IsAbsent k) u (next u r st)) st
            (Reach-Inv r).1 (λ busy k h. inr (busy, h)) (λ k h. inl h) (Reach-IsPast r u))
    | no ne ↦
        subst (IsPast t.key (λ k. Was (IsAbsent k) tid (next u r st))) (sym (stays st tid ne)) (
          other_step (λ k. Was (IsAbsent k) tid r) (λ k. Was (IsAbsent k) tid (next u r st))
            (s.worker tid) st (Reach-Inv r).1 (λ busy k h. inr (busy, h))
            ((Reach-Inv r).1.place tid) (Reach-IsPast r tid))
  ]

  -- What a search answers: the key is in the list, or it was not there at some point of the call.
  abbrev pub Answer : {s : System} → Reach func change s → ℕ → Worker → Type 0
  Answer {s = s} r tid (Worker.found purpose k cur) = IsPresent k s
  Answer r tid (Worker.missing purpose k prev cur) = Was (IsAbsent k) tid r
  Answer r tid _ = Unit

  -- In every reachable state, if a thread's search has found its key, the key is in the list; if its
  -- search has found that the key is missing, then at some point of that call the key was not in the
  -- list.
  pub search_answers :
      {s : System} (r : Reach func change s) (tid : ℕ) (w : Worker)
      → s.worker tid ≡ w
      → Answer r tid w
  search_answers {s = s} r tid (Worker.found purpose k cur) e =
      let (ns, v) = Reach-Inv r in
      let (inside, is_key) = known v tid _ e in (ns, Inv-IsList v, (cur, inside, is_key))
  search_answers {s = s} r tid (Worker.missing purpose k prev cur) e =
      subst (IsPast s.key (λ k'. Was (IsAbsent k') tid r)) e (Reach-IsPast r tid)
  search_answers r tid _ e = tt
