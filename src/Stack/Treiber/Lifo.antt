-- ===== src/Stack/Treiber/Lifo.antt =====
-- Treiber's stack is a stack, and it touches no node that the collector may have freed.
use temp_data_structure_benc.Prelude.{
  ℕ, ◌≡◌, ◌≢◌, true, false, List, map, Array, refl, update_ne, [], ◌∷◌, ap, sym, arith,
}
use mathlib.Core.Path.{subst}
use temp_data_structure_benc.Prelude.Sort.{contains}
use temp_data_structure_benc.Queue.TwoLock.Chain.{Chain}
use temp_data_structure_benc.Stack.Treiber.{
  Worker, System, holds, Step, begin_push, push_set, load_next, take_data, retire, clear_next,
  clear_one, Reach,
}
use temp_data_structure_benc.Stack.Treiber.Invariant.{Starts, IsUsed, Inv}
use temp_data_structure_benc.Stack.Treiber.Kinds.{known}
use temp_data_structure_benc.Stack.Treiber.Steps.{effect, Does, Step-Inv, Reach-Inv}

-- A step by another thread leaves the item of a node that has been taken.
data_kept :
    {s : System} {tid : ℕ} {t : System} {ns : List ℕ} {own : Array (List ℕ)} (st : Step s tid t)
    → Inv s ns own
    → (u n : ℕ) → s.worker u ≡ Worker.taken n
    → t.value n ≡ s.value n
data_kept {s = s} (begin_push node val e nz dead) v u n at_taken =
    update_ne s.value val (λ z. cc (z, dead, (v.owns u n (known v u _ at_taken)).0.1))
data_kept _ v u n at_taken = refl

-- In every reachable state the links lead from `m_pTop` through nodes to NULL, and their items do what
-- the items of a stack do: the compare and swap of push puts the new node's item on top, that of pop
-- takes the top item, that of clear takes all, pop and clear find NULL only if there is none, and no
-- other step changes the items. The item of a node that pop has taken stays until pop has read it.
pub stack_refines :
    {s : System} {tid : ℕ} {t : System}
    → Reach s
    → (st : Step s tid t)
    → (ns : List ℕ) × (ns' : List ℕ) × Chain s.next 0 ns
      × Chain t.next 0 ns'
      × Does (effect st) (map s.value ns) (map t.value ns')
      × ((u n : ℕ) → s.worker u ≡ Worker.taken n → t.value n ≡ s.value n)
stack_refines r st =
    let (ns, own, v) = Reach-Inv r in
    let (ns', own', v', does) = Step-Inv st v in (ns, ns', v.chain, v'.chain, does, data_kept st v)

-- The node that a step reads, writes or hands to the collector.
pub data Touch : Type 0 where
  nothing : Touch
  uses : (n : ℕ) → Touch
  retires : (n : ℕ) → Touch

abbrev pub touch : {s : System} {tid : ℕ} {t : System} → Step s tid t → Touch
touch (push_set node t e) = Touch.uses node
touch (load_next t e) = Touch.uses t
touch (take_data t e) = Touch.uses t
touch (retire t e) = Touch.retires t
touch (clear_next p removed e nz) = Touch.uses p
touch (clear_one p top removed e) = Touch.retires p
touch _ = Touch.nothing

-- A node that is used lives; one that is retired lives, has not been retired, and is not in the stack.
abbrev pub IsSafe : System → List ℕ → Touch → Type 0
IsSafe s ns Touch.nothing = Unit
IsSafe s ns (Touch.uses n) = s.live n ≡ true
IsSafe s ns (Touch.retires n) = IsUsed s n × (contains ns n ≡ false)

Starts-contains :
    (next : Array ℕ) (p : ℕ) (ns : List ℕ) → Starts next p ns → p ≢ 0 → contains ns p ≡ true
Starts-contains next p [] c nz = absurd (nz c)
Starts-contains next p (n ∷ ns) c nz = ground (arith, c.0)

touch-IsSafe :
    {s : System} {tid : ℕ} {t : System} {ns : List ℕ} {own : Array (List ℕ)} (st : Step s tid t)
    → Inv s ns own
    → IsSafe s ns (touch st)
touch-IsSafe {tid = tid} (push_set node t e) v = (v.owns tid node (known v tid _ e)).0.1
touch-IsSafe {tid = tid} (load_next t e) v = (v.held tid t (ap holds e)).1
touch-IsSafe {tid = tid} (take_data t e) v = (v.owns tid t (known v tid _ e)).0.1
touch-IsSafe {tid = tid} (retire t e) v = v.owns tid t (known v tid _ e)
touch-IsSafe {tid = tid} {own = own} (clear_next p removed e nz) v =
    (v.owns tid p (Starts-contains _ p (own tid) (known v tid _ e).0 nz)).0.1
touch-IsSafe {tid = tid} (clear_one p top removed e) v =
    let (ms, is_own, _, _) = known v tid _ e in
    v.owns tid p (subst (λ l. contains l p ≡ true) (sym is_own) (ground arith))
touch-IsSafe _ v = tt

-- In every reachable state the node that a step reads or writes lives, also where other threads have
-- taken it meanwhile and the collector frees what is retired and not guarded; a node that is retired
-- lives, has not been retired before, and is no longer in the stack.
pub nodes_live :
    {s : System} {tid : ℕ} {t : System}
    → Reach s
    → (st : Step s tid t) → (ns : List ℕ) × Chain s.next 0 ns × IsSafe s ns (touch st)
nodes_live r st = let (ns, own, v) = Reach-Inv r in (ns, v.chain, touch-IsSafe st v)
