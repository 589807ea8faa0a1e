-- ===== src/Queue/TwoLock/Chain.antt =====
-- The list of nodes behind an `RWQueue`.
use temp_data_structure_benc.Prelude.{
  ℕ, ◌≡◌, ◌≢◌, refl, sym, ap₂, List, [], ◌∷◌, ◌++◌, map, Array, update, update_ne, All, All-append,
  arith,
}

-- From the node `h` the links lead through `ns`, and the last of them is NULL.
abbrev pub Chain : Array ℕ → ℕ → List ℕ → Type 0
Chain next h [] = next h ≡ 0
Chain next h (n ∷ ns) = (next h ≡ n) × (n ≢ 0) × Chain next n ns

abbrev pub last : ℕ → List ℕ → ℕ
last h [] = h
last h (n ∷ ns) = last n ns

abbrev pub Distinct : ℕ → List ℕ → Type 0
Distinct h [] = Unit
Distinct h (n ∷ ns) = All (λ m. m ≢ h) (n ∷ ns) × Distinct n ns

pub All-last {ℓ} : (P : ℕ → Type ℓ) (h : ℕ) (ns : List ℕ) → P h → All P ns → P (last h ns)
All-last P h [] k a = k
All-last P h (n ∷ ns) k a = All-last P n ns a.0 a.1

-- A store to a node outside the chain.
pub Chain-away :
    (next : Array ℕ) (h : ℕ) (ns : List ℕ) (i v : ℕ)
    → h ≢ i
    → All (λ n. n ≢ i) ns
    → Chain next h ns
    → Chain (update next i v) h ns
Chain-away next h [] i v ne a c = ground arith
Chain-away next h (n ∷ ns) i v ne a c = (ground arith, c.1, Chain-away next n ns i v a.0 a.1 c.2)

-- A new node at the end.
pub Chain-append :
    (next : Array ℕ) (h : ℕ) (ns : List ℕ) (node : ℕ)
    → node ≢ 0
    → h ≢ node
    → All (λ n. n ≢ node) ns
    → Distinct h ns
    → Chain next h ns
    → Chain (update (update next node 0) (last h ns) node) h (ns ++ (node ∷ []))
Chain-append next h [] node nz ne a d c = ground arith
Chain-append next h (n ∷ ns) node nz ne a d c =
    let away : last n ns ≢ h = All-last (λ m. m ≢ h) n ns d.0.0 d.0.1 in
    (ground arith, c.1, Chain-append next n ns node nz a.0 a.1 d.1 c.2)

pub Distinct-append :
    (h : ℕ) (ns : List ℕ) (node : ℕ)
    → h ≢ node
    → All (λ n. n ≢ node) ns
    → Distinct h ns
    → Distinct h (ns ++ (node ∷ []))
Distinct-append h [] node ne a d = ((λ e. ne (sym e), tt), tt)
Distinct-append h (n ∷ ns) node ne a d = (
  (d.0.0, All-append (λ m. m ≢ h) ns (node ∷ []) d.0.1 (λ e. ne (sym e), tt)),
  Distinct-append n ns node a.0 a.1 d.1,
)

pub last-append : (h : ℕ) (ns : List ℕ) (node : ℕ) → last h (ns ++ (node ∷ [])) ≡ node
last-append h [] node = refl
last-append h (n ∷ ns) node = last-append n ns node

pub map-update :
    {A : Type 0} (value : Array A) (ns : List ℕ) (i : ℕ) (v : A)
    → All (λ n. n ≢ i) ns
    → map (update value i v) ns ≡ map value ns
map-update value [] i v a = refl
map-update value (n ∷ ns) i v a =
    ap₂ ◌∷◌ (update_ne value v (λ e. a.0 (sym e))) (map-update value ns i v a.1)

pub Chain-last : (next : Array ℕ) (h : ℕ) (ns : List ℕ) → Chain next h ns → next (last h ns) ≡ 0
Chain-last next h [] c = c
Chain-last next h (n ∷ ns) c = Chain-last next n ns c.2
