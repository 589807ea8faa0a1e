-- ===== src/OrderedList/Michael/Chain.antt =====
-- The list of nodes behind Michael's list: what a link inserted in its place does to it.
use temp_data_structure_benc.Prelude.{
  ℕ, ◌≡◌, ◌≢◌, ◌<◌, ◌⊎◌, ◌↔◌, ◌∷◌, ◌∙◌, true, false, List, [], Array, update, sym, ap, arith,
  update_ne, inl, inr, All, All-imp, leb, if_elim,
}
use mathlib.Core.Path.{subst}
use native.Mathlib.Decide.{ℕ_discrete}
use temp_data_structure_benc.Prelude.Sort.{contains-All, contains, insert, Ascending}
use temp_data_structure_benc.Queue.TwoLock.Chain.{Chain, Chain-away}

pub contains-insert :
    (key : ℕ → ℕ) (x : ℕ) (ns : List ℕ) (n : ℕ)
    → (contains (insert key x ns) n ≡ true) ↔ ((x ≡ n) ⊎ (contains ns n ≡ true))
contains-insert key x [] n = ground arith
contains-insert key x (m ∷ ns) n =
    if_elim (λ l. (contains l n ≡ true) ↔ ((x ≡ n) ⊎ (contains (m ∷ ns) n ≡ true)))
      (leb (key x) (key m)) (λ _. ground arith) (λ _. ground (arith, contains-insert key x ns n))

-- The node after one that is in the list is NULL or in the list.
pub Chain-next :
    (next : Array ℕ) (h : ℕ) (ns : List ℕ) (n : ℕ)
    → Chain next h ns
    → (n ≡ h) ⊎ (contains ns n ≡ true)
    → next n ≢ 0
    → contains ns (next n) ≡ true
Chain-next next h [] n c (inl e) ne = absurd (ne (ap next e ∙ c))
Chain-next next h [] n c (inr has) ne = absurd (cc (has))
Chain-next next h (m ∷ ns) n c (inl e) ne = ground (arith, ap next e, c.0)
Chain-next next h (m ∷ ns) n c (inr has) ne = elim (ℕ_discrete m n) [
  | yes e ↦ ground (arith, Chain-next next m ns n c.2 (inl (sym e)) ne)
  | no other ↦ ground (arith, Chain-next next m ns n c.2 (inr (ground (arith, has))) ne)
]

-- No node of the list has a key between those of two neighbours.
pub Chain-between :
    (next : Array ℕ) (key : ℕ → ℕ) (h : ℕ) (ns : List ℕ) (prev k : ℕ)
    → Chain next h ns
    → Ascending key ns
    → All (λ m. m ≢ h) ns
    → (prev ≡ h) ⊎ ((contains ns prev ≡ true) × (key prev < k))
    → (next prev ≢ 0 → k < key (next prev))
    → All (λ m. key m ≢ k) ns
Chain-between next key h [] prev k c a apart place less = tt
Chain-between next key h (m ∷ ns) prev k c a apart (inl e) less =
    let eq : next prev ≡ m = ap next e ∙ c.0 in
    let lt : k < key m = subst (λ n. k < key n) eq (less (λ z. c.1 (sym eq ∙ z))) in
    ((λ z. omega arith), All-imp ns (λ n l z. omega arith) a.0)
Chain-between next key h (m ∷ ns) prev k c a apart (inr (has, lt)) less = (
  (λ z. absurd (before.1 z)),
  Chain-between next key m ns prev k c.2 a.1
      (All-imp ns (λ n l z. absurd (ground (arith, l, z))) a.0) before.0 less,
)
  where
    before : ((prev ≡ m) ⊎ ((contains ns prev ≡ true) × (key prev < k))) × (key m ≢ k)
    before = elim (ℕ_discrete m prev) [
      | yes e ↦ (inl (sym e), λ z. absurd (ground (arith, ap key e)))
      | no other ↦
          let has' : contains ns prev ≡ true = ground (arith, has) in
          let l : key m < key prev = contains-All (λ n. key m < key n) ns prev a.0 has' in
          (inr (has', lt), λ z. omega arith)
    ]

-- Linked between `prev` and the node after it, in the order of the keys.
pub Chain-insert :
    (next : Array ℕ) (key : ℕ → ℕ) (h : ℕ) (ns : List ℕ) (prev node : ℕ)
    → Chain next h ns
    → Ascending key ns
    → All (λ m. m ≢ h) ns
    → node ≢ 0
    → node ≢ h
    → contains ns node ≡ false
    → (prev ≡ h) ⊎ ((contains ns prev ≡ true) × (key prev < key node))
    → (next prev ≢ 0 → key node < key (next prev))
    → next node ≡ next prev
    → Chain (update next prev node) h (insert key node ns)
Chain-insert next key h [] prev node c a apart nz nh new (inl e) less same =
    ground (arith, same, ap next e, c)
Chain-insert next key h [] prev node c a apart nz nh new (inr p) less same = absurd (cc (p.0))
Chain-insert next key h (m ∷ ns) prev node c a apart nz nh new (inl e) less same =
    let eq : next prev ≡ m = ap next e ∙ c.0 in
    let lt : key node < key m = subst (λ n. key node < key n) eq (less (λ z. c.1 (sym eq ∙ z))) in
    if_elim (Chain (update next prev node) h) (leb (key node) (key m))
      (λ _. (
        ground (arith, e),
        nz,
        (
          update_ne next node (λ z. nh (sym z ∙ e)) ∙ same ∙ eq,
          c.1,
          Chain-away next m ns prev node (λ z. apart.0 (z ∙ e))
              (All-imp ns (λ n ne z. ne (z ∙ e)) apart.1) c.2,
        ),
      ))
      (λ gt. absurd (ground (arith, gt)))
Chain-insert next key h (m ∷ ns) prev node c a apart nz nh new (inr (has, lt)) less same =
    if_elim (Chain (update next prev node) h) (leb (key node) (key m))
      (λ le. absurd (ground (arith, le, before.1)))
      (λ _. (
        update_ne next node before.2 ∙ c.0,
        c.1,
        Chain-insert next key m ns prev node c.2 a.1
            (All-imp ns (λ n l z. absurd (ground (arith, l, z))) a.0) nz (λ z. ground (arith, new))
            (ground (arith, new)) before.0 less same,
      ))
  where
    before :
        ((prev ≡ m) ⊎ ((contains ns prev ≡ true) × (key prev < key node)))
        × (key m < key node)
        × (prev ≢ h)
    before = elim (ℕ_discrete m prev) [
      | yes e ↦ (inl (sym e), subst (λ n. key n < key node) (sym e) lt, λ z. apart.0 (e ∙ z))
      | no other ↦
          let has' : contains ns prev ≡ true = ground (arith, has) in
          let l : key m < key prev = contains-All (λ n. key m < key n) ns prev a.0 has' in
          (inr (has', lt), omega arith, contains-All (λ n. n ≢ h) ns prev apart.1 has')
    ]
