-- ===== src/OrderedList/Michael/Sorted.antt =====
-- Michael's list stays sorted, and a key is linked into it once.
use temp_data_structure_benc.Prelude.{
  ℕ, ◌≡◌, ◌≢◌, ◌∙◌, true, Bool, Option, none, some, List, [], update, refl, ap, update_self, inl,
  inr, All,
}
use mathlib.Core.Path.{subst}
use temp_data_structure_benc.Prelude.Sort.{contains, Ascending, insert}
use temp_data_structure_benc.Queue.TwoLock.Chain.{Chain}
use temp_data_structure_benc.OrderedList.Michael.{
  begin_insert_change, begin_emplace, insert_change_false, emplace_true, emplace_false,
  insert_change_true, call_change, System, Step, begin_find, begin_insert, begin_ensure, load_head,
  at_end, load_next, next_changed, next_same, prev_changed, less, equal, greater, find_true,
  find_false, insert_false, ensure_old, ensure_alloc, ensure_free, store_next, cas_fails,
  insert_true, ensure_true, call_func, Reach, here, next,
}
use temp_data_structure_benc.OrderedList.Michael.Chain.{contains-insert, Chain-next}
use temp_data_structure_benc.OrderedList.Michael.Invariant.{owned, key_of, Inv, start-Inv, known}
use temp_data_structure_benc.OrderedList.Michael.Insert.{absent_node, link_node}
use temp_data_structure_benc.OrderedList.Michael.Kinds.{move, store_value, allocate, free, set_next}

-- The node that a step links into the list.
abbrev pub linked :
    {func : ℕ → ℕ → Bool → ℕ} {change : ℕ → ℕ → ℕ} {s : System} {tid : ℕ} {t : System}
    → Step func change s tid t
    → Option ℕ
linked (insert_true node key prev cur e same) = some node
linked (insert_change_true val node key prev cur e same) = some node
linked (ensure_true val node key prev cur e same) = some node
linked _ = none

-- The list after the step.
abbrev pub grow : System → Option ℕ → List ℕ → List ℕ
grow s none ns = ns
grow s (some node) ns = insert s.key node ns

pub Step-Inv :
    {func : ℕ → ℕ → Bool → ℕ} {change : ℕ → ℕ → ℕ} {s : System} {tid : ℕ} {t : System} {ns : List ℕ}
    (st : Step func change s tid t)
    → Inv s ns
    → Inv t (grow s (linked st) ns)
Step-Inv {tid = tid} (begin_find key e) v = move v tid _ _ e (λ n o. cc (o)) tt
Step-Inv {tid = tid} (begin_insert key val node e nz dead) v =
    allocate v tid node key val _ nz dead refl refl tt
Step-Inv {tid = tid} (begin_insert_change key val node garbage e nz dead) v =
    allocate v tid node key garbage _ nz dead refl refl tt
Step-Inv {tid = tid} (begin_emplace key val e) v = move v tid _ _ e (λ n o. cc (o)) tt
Step-Inv {tid = tid} (begin_ensure key val e) v = move v tid _ _ e (λ n o. cc (o)) tt
Step-Inv {s = s} {tid = tid} {ns = ns} (load_head purpose key e) v =
    move v tid _ _ e (λ n o. (o, refl))
      (inl refl, λ nz. Chain-next s.next 0 ns 0 v.chain (inl refl) nz)
Step-Inv {tid = tid} (at_end purpose key prev cur e null) v =
    move v tid _ _ e (λ n o. (o, refl)) ((known v tid _ e).0, λ nz. absurd (nz null))
Step-Inv {s = s} {tid = tid} {ns = ns} (load_next purpose key prev cur e nz) v =
    let (before, inside) = known v tid _ e in
    move v tid _ _ e (λ n o. (o, refl))
      (before, inside nz, λ nz'. Chain-next s.next 0 ns cur v.chain (inr (inside nz)) nz')
Step-Inv {tid = tid} (next_changed purpose key prev cur succ e ne) v =
    move v tid _ _ e (λ n o. (o, refl)) tt
Step-Inv {tid = tid} (next_same purpose key prev cur succ e same) v =
    move v tid _ _ e (λ n o. (o, refl)) (known v tid _ e)
Step-Inv {tid = tid} (prev_changed purpose key prev cur succ e ne) v =
    move v tid _ _ e (λ n o. (o, refl)) tt
Step-Inv {tid = tid} (less purpose key prev cur succ e same lt) v =
    let (_, inside, after) = known v tid _ e in
    move v tid _ _ e (λ n o. (o, refl)) (inr (inside, lt), after)
Step-Inv {tid = tid} (equal purpose key prev cur succ e same eq) v =
    move v tid _ _ e (λ n o. (o, refl)) ((known v tid _ e).1, eq)
Step-Inv {tid = tid} (greater purpose key prev cur succ e same gt) v =
    let (before, inside, _) = known v tid _ e in
    move v tid _ _ e (λ n o. (o, refl)) (before, λ nz. (inside, gt))
Step-Inv {tid = tid} (find_true key cur e) v = move v tid _ _ e (λ n o. cc (o)) tt
Step-Inv {tid = tid} (find_false key prev cur e) v = move v tid _ _ e (λ n o. cc (o)) tt
Step-Inv {tid = tid} (insert_false node key cur e) v = free v tid node _ (ap owned e) refl tt
Step-Inv {tid = tid} (insert_change_false val node key cur e) v =
    free v tid node _ (ap owned e) refl tt
Step-Inv {tid = tid} (emplace_true val key cur e) v =
    move v tid _ _ e (λ n o. cc (o)) (known v tid _ e).0
Step-Inv {tid = tid} (emplace_false val key prev cur e) v = move v tid _ _ e (λ n o. cc (o)) tt
Step-Inv {tid = tid} (ensure_old val key cur e) v =
    move v tid _ _ e (λ n o. cc (o)) (known v tid _ e).0
Step-Inv {tid = tid} (ensure_alloc val key prev cur node e nz dead garbage) v =
    allocate v tid node key garbage _ nz dead refl refl tt
Step-Inv {tid = tid} (ensure_free val node key cur e) v =
    free v tid node _ (ap owned e) refl (known v tid _ e).0
Step-Inv {s = s} {tid = tid} (store_next purpose node key prev cur e own) v =
    let (before, after) = known v tid _ e in
    set_next v tid node cur _ (ap owned e ∙ own) (λ n o. (cc (own, o), ap key_of e))
      (
        before,
        after,
        λ n o.
            subst (λ m. update s.next node cur m ≡ cur) (cc (own, o)) (update_self s.next node cur),
      )
Step-Inv {tid = tid} (cas_fails purpose key prev cur e ne) v =
    move v tid _ _ e (λ n o. (o, refl)) tt
Step-Inv {tid = tid} (insert_true node key prev cur e same) v =
    link_node v tid _ node key prev cur e refl same _ refl tt
Step-Inv {s = s} {tid = tid} {ns = ns} (ensure_true val node key prev cur e same) v =
    link_node v tid _ node key prev cur e refl same _ refl
      ((contains-insert s.key node ns node).1 (inl refl))
Step-Inv {s = s} {tid = tid} {ns = ns} (insert_change_true val node key prev cur e same) v =
    link_node v tid _ node key prev cur e refl same _ refl
      ((contains-insert s.key node ns node).1 (inl refl))
Step-Inv {tid = tid} (call_change cur val e) v = store_value v tid cur _
Step-Inv {tid = tid} (call_func cur val is_new e) v = store_value v tid cur _

pub Reach-Inv :
    {func : ℕ → ℕ → Bool → ℕ} {change : ℕ → ℕ → ℕ} {s : System}
    → Reach func change s
    → (ns : List ℕ) × Inv s ns
Reach-Inv here = ([], start-Inv)
Reach-Inv (next {s = s} tid r st) =
    let (ns, v) = Reach-Inv r in (grow s (linked st) ns, Step-Inv st v)

-- From `m_pHead` the links lead through these nodes to NULL, all of them live and in the order of
-- their keys, no two of which are equal.
abbrev pub IsList : System → List ℕ → Type 0
IsList s ns =
    Chain s.next 0 ns × Ascending s.key ns × ((n : ℕ) → contains ns n ≡ true → s.live n ≡ true)

pub Inv-IsList : {s : System} {ns : List ℕ} → Inv s ns → IsList s ns
Inv-IsList v = (v.chain, v.sorted, v.lives)

-- No node of the list has the key of the node that is linked.
abbrev pub IsNew : System → List ℕ → Option ℕ → Type 0
IsNew s ns none = Unit
IsNew s ns (some node) = All (λ n. s.key n ≢ s.key node) ns

linked-IsNew :
    {func : ℕ → ℕ → Bool → ℕ} {change : ℕ → ℕ → ℕ} {s : System} {tid : ℕ} {t : System} {ns : List ℕ}
    (st : Step func change s tid t)
    → Inv s ns
    → IsNew s ns (linked st)
linked-IsNew (insert_true node key prev cur at_link same) v =
    absent_node v _ _ node key prev cur at_link refl same node refl
linked-IsNew (insert_change_true val node key prev cur at_link same) v =
    absent_node v _ _ node key prev cur at_link refl same node refl
linked-IsNew (ensure_true val node key prev cur at_link same) v =
    absent_node v _ _ node key prev cur at_link refl same node refl
linked-IsNew _ v = tt

-- In every reachable state the links lead from `m_pHead` through live nodes in the order of their
-- keys, no key twice, to NULL. A step leaves this list as it is, but for the compare and swap with
-- which insert or ensure succeeds: it adds the node in its place, and no node had its key.
pub step_links :
    {func : ℕ → ℕ → Bool → ℕ} {change : ℕ → ℕ → ℕ} {s : System} {tid : ℕ} {t : System}
    → Reach func change s
    → (st : Step func change s tid t)
    → (ns : List ℕ) × IsList s ns × IsList t (grow s (linked st) ns) × IsNew s ns (linked st)
step_links r st =
    let (ns, v) = Reach-Inv r in (ns, Inv-IsList v, Inv-IsList (Step-Inv st v), linked-IsNew st v)
