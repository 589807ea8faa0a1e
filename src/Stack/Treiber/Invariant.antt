-- ===== src/Stack/Treiber/Invariant.antt =====
-- The invariant of Treiber's stack: a chain of live nodes, and what each thread owns and holds.
use temp_data_structure_benc.Prelude.{
  ℕ, ◌≡◌, ◌≢◌, ◌⊎◌, ◌∷◌, ◌∙◌, true, false, Option, none, some, List, [], Array, refl, sym, inl, inr,
  All, arith,
}
use mathlib.Core.Path.{subst}
use temp_data_structure_benc.Prelude.Sort.{contains}
use temp_data_structure_benc.Queue.TwoLock.Chain.{Chain}
use temp_data_structure_benc.Stack.Treiber.{Worker, System, start, holds}

-- The node that a thread has allocated and not pushed yet.
abbrev pub pushing : Worker → Option ℕ
pushing (Worker.push node) = some node
pushing (Worker.push_store node t) = some node
pushing (Worker.push_cas node t) = some node
pushing _ = none

-- The pointer leads into the chain.
abbrev pub Starts : Array ℕ → ℕ → List ℕ → Type 0
Starts next head [] = head ≡ 0
Starts next head (n ∷ ns) = (head ≡ n) × (n ≢ 0) × Chain next n ns

pub Chain-Starts :
    (next : Array ℕ) (h : ℕ) (ns : List ℕ) → Chain next h ns → Starts next (next h) ns
Chain-Starts next h [] c = c
Chain-Starts next h (n ∷ ns) c = c

-- No node twice in the list.
abbrev pub IsSimple : List ℕ → Type 0
IsSimple [] = Unit
IsSimple (n ∷ ns) = All (λ m. m ≢ n) ns × IsSimple ns

-- What the place of a thread says; `own` are the nodes that belong to it alone.
abbrev pub IsPlace : System → List ℕ → Worker → Type 0
IsPlace s own (Worker.push node) = contains own node ≡ true
IsPlace s own (Worker.push_store node t) = contains own node ≡ true
IsPlace s own (Worker.push_cas node t) = (contains own node ≡ true) × (s.next node ≡ t)
IsPlace s own (Worker.pop_next t) = t ≢ 0
IsPlace s own (Worker.pop_cas t succ) = (t ≢ 0) × (s.next t ≡ succ)
IsPlace s own (Worker.taken t) = contains own t ≡ true
IsPlace s own (Worker.retiring t) = contains own t ≡ true
IsPlace s own (Worker.pop_guard t) = t ≢ 0
IsPlace s own (Worker.pop_check t) = t ≢ 0
IsPlace s own (Worker.clear_guard t) = t ≢ 0
IsPlace s own (Worker.clear_check t) = t ≢ 0
IsPlace s own (Worker.clear_cas t) = t ≢ 0
IsPlace s own (Worker.clearing top removed) = Starts s.next top own × IsSimple own
IsPlace s own (Worker.clear_retire p top removed) =
    (ns : List ℕ) × (own ≡ p ∷ ns) × Starts s.next top ns × IsSimple own
IsPlace s own _ = Unit

-- A node that is allocated and not retired.
abbrev pub IsUsed : System → ℕ → Type 0
IsUsed s n = (n ≢ 0) × (s.live n ≡ true) × (s.retired n ≡ false)

pub record Inv (s : System) (ns : List ℕ) (own : Array (List ℕ)) : Type 0 where
  pub chain : Chain s.next 0 ns
  pub simple : IsSimple ns
  pub inside : (n : ℕ) → contains ns n ≡ true → IsUsed s n
  pub retired_live : (n : ℕ) → s.retired n ≡ true → s.live n ≡ true
  pub owns : (t n : ℕ) → contains (own t) n ≡ true → IsUsed s n × (contains ns n ≡ false)
  pub once : (t u n : ℕ) → contains (own t) n ≡ true → contains (own u) n ≡ true → t ≡ u
  pub held : (t n : ℕ) → holds (s.worker t) ≡ some n → (n ≢ 0) × (s.live n ≡ true)
  pub fresh : (t u n : ℕ) → holds (s.worker t) ≡ some n → pushing (s.worker u) ≡ some n → ⊥
  pub place : (t : ℕ) → IsPlace s (own t) (s.worker t)

pub start-Inv : Inv start [] (λ _. [])
start-Inv = record {
  chain = refl;
  simple = tt;
  inside = λ n h. cc;
  retired_live = λ n h. cc;
  owns = λ t n h. cc;
  once = λ t u n h k. cc;
  held = λ t n h. cc;
  fresh = λ t u n h k. cc;
  place = λ t. tt;
}

-- The links of the nodes of a chain.
pub Chain-same :
    (next next' : Array ℕ) (h : ℕ) (ns : List ℕ)
    → next' h ≡ next h
    → All (λ n. next' n ≡ next n) ns
    → Chain next h ns
    → Chain next' h ns
Chain-same next next' h [] e a c = e ∙ c
Chain-same next next' h (n ∷ ns) e a c = (e ∙ c.0, c.1, Chain-same next next' n ns a.0 a.1 c.2)

pub Starts-same :
    (next next' : Array ℕ) (head : ℕ) (ns : List ℕ)
    → All (λ n. next' n ≡ next n) ns
    → Starts next head ns
    → Starts next' head ns
Starts-same next next' head [] a c = c
Starts-same next next' head (n ∷ ns) a c = (c.0, c.1, Chain-same next next' n ns a.0 a.1 c.2)

pub All-contains :
    {P : ℕ → Type 0} (ns : List ℕ) → ((n : ℕ) → contains ns n ≡ true → P n) → All P ns
All-contains [] f = tt
All-contains (m ∷ ns) f = (f m (ground arith), All-contains ns (λ n h. f n (ground (arith, h))))

-- A place stays as it is where the links that it speaks of do.
pub IsPlace-same :
    (s s' : System) (own : List ℕ) (w : Worker)
    → ((n : ℕ) → (contains own n ≡ true) ⊎ (holds w ≡ some n) → s'.next n ≡ s.next n)
    → IsPlace s own w
    → IsPlace s' own w
IsPlace-same s s' own (Worker.push node) f h = h
IsPlace-same s s' own (Worker.push_store node t) f h = h
IsPlace-same s s' own (Worker.push_cas node t) f h = (h.0, f node (inl h.0) ∙ h.1)
IsPlace-same s s' own (Worker.pop_next t) f h = h
IsPlace-same s s' own (Worker.pop_cas t succ) f h = (h.0, f t (inr refl) ∙ h.1)
IsPlace-same s s' own (Worker.taken t) f h = h
IsPlace-same s s' own (Worker.retiring t) f h = h
IsPlace-same s s' own (Worker.pop_guard t) f h = h
IsPlace-same s s' own (Worker.pop_check t) f h = h
IsPlace-same s s' own (Worker.clear_guard t) f h = h
IsPlace-same s s' own (Worker.clear_check t) f h = h
IsPlace-same s s' own (Worker.clear_cas t) f h = h
IsPlace-same s s' own (Worker.clearing top removed) f h =
    (Starts-same s.next s'.next top own (All-contains own (λ n k. f n (inl k))) h.0, h.1)
IsPlace-same s s' own (Worker.clear_retire p top removed) f (ns, e, c, d) = (
  ns,
  e,
  Starts-same s.next s'.next top ns
      (All-contains ns
        (λ n k. f n (inl (subst (λ l. contains l n ≡ true) (sym e) (ground (arith, k))))))
      c,
  d,
)
IsPlace-same s s' own _ f h = tt

-- A thread that pushes a node owns it, and holds none.
pub pushing-owned :
    (s : System) (own : List ℕ) (w : Worker) (n : ℕ)
    → IsPlace s own w
    → pushing w ≡ some n
    → contains own n ≡ true
pushing-owned s own (Worker.push node) n h e = cc (h, e)
pushing-owned s own (Worker.push_store node t) n h e = cc (h, e)
pushing-owned s own (Worker.push_cas node t) n h e = cc (h.0, e)
pushing-owned s own _ n h e = absurd (cc (e))

pub pushing-holds : (w : Worker) (n m : ℕ) → pushing w ≡ some n → holds w ≡ some m → ⊥
pushing-holds (Worker.push node) n m e h = cc (h)
pushing-holds (Worker.push_store node t) n m e h = cc (h)
pushing-holds (Worker.push_cas node t) n m e h = cc (h)
pushing-holds _ n m e h = cc (e)

pub contains-cons :
    (m : ℕ) (ns : List ℕ) (n : ℕ) → contains (m ∷ ns) n ≡ true → (m ≡ n) ⊎ (contains ns n ≡ true)
contains-cons m ns n h = ground (arith, h)
