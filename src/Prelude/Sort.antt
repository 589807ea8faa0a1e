-- ===== src/Prelude/Sort.antt =====
-- What the code takes from the standard algorithms: the sort, the search in a sorted range, and the
-- tests on lists that describe them.
use mathlib.Core.Path.{subst}
use mathlib.Core.List.{Perm}
use mathlib.Core.List.Perm
use native.Mathlib.Decide.{ℕ_discrete}
use temp_data_structure_benc.Prelude.{
  true, ℕ, zero, suc, ◌+◌, ◌≤◌, ◌<◌, ◌≡◌, ◌≢◌, refl, sym, ap, ap₂, ◌∙◌, Bool, false, ◌||◌, List, [],
  ◌∷◌, ◌++◌, arith, ltb, leb, ◌==◌, if◌then◌else◌, if_elim, Array, All, All-imp, All-split,
  All-append, length, update, update_ne,
}

-- Is the number in the list?
abbrev pub contains : List ℕ → ℕ → Bool
contains [] k = false
contains (x ∷ xs) k = x == k || contains xs k

pub contains-All {ℓ} :
    (P : ℕ → Type ℓ) (ns : List ℕ) (n : ℕ) → All P ns → contains ns n ≡ true → P n
contains-All P [] n a h = absurd (cc (h))
contains-All P (m ∷ ns) n a h = elim (ℕ_discrete m n) [
  | yes e ↦ subst P e a.0
  | no ne ↦ contains-All P ns n a.1 (ground (arith, h))
]

-- What an absent node says of the nodes of the list.
pub contains-absent : (ns : List ℕ) (n : ℕ) → contains ns n ≡ false → All (λ m. m ≢ n) ns
contains-absent [] n h = tt
contains-absent (m ∷ ns) n h = (ground (arith, h), contains-absent ns n (ground (arith, h)))

module _ {ℓ} {A : Type ℓ} where
  abbrev pub filter : (A → Bool) → List A → List A
  filter p [] = []
  filter p (x ∷ xs) = let rest = filter p xs in if p x then x ∷ rest else rest

  -- The cells `first`, `first + 1` and so on of an array.
  abbrev pub cells : Array A → ℕ → ℕ → List A
  cells a first zero = []
  cells a first (suc n) = a first ∷ cells a (suc first) n

  pub length-cells : (a : Array A) (first n : ℕ) → length (cells a first n) ≡ n
  length-cells a first zero = refl
  length-cells a first (suc n) = ap suc (length-cells a (suc first) n)

  -- A write below the cells leaves them alone.
  pub cells-update_below :
      (a : Array A) (i : ℕ) (v : A) (first n : ℕ)
      → i < first
      → cells (update a i v) first n ≡ cells a first n
  cells-update_below a i v first zero h = refl
  cells-update_below a i v first (suc n) h =
      ap₂ ◌∷◌ (update_ne a v (λ (e : i ≡ first). absurd (omega arith)))
        (cells-update_below a i v (suc first) n (omega arith))

  -- A write past the cells leaves them alone.
  pub cells-update_above :
      (a : Array A) (i : ℕ) (v : A) (first n : ℕ)
      → first + n ≤ i
      → cells (update a i v) first n ≡ cells a first n
  cells-update_above a i v first zero h = refl
  cells-update_above a i v first (suc n) h =
      ap₂ ◌∷◌ (update_ne a v (λ (e : i ≡ first). absurd (omega arith)))
        (cells-update_above a i v (suc first) n (omega arith))

  -- A write just past the cells, taken in, appends.
  pub cells-update_past :
      (a : Array A) (v : A) (first n : ℕ)
      → cells (update a (first + n) v) first (suc n) ≡ cells a first n ++ (v ∷ [])
  cells-update_past a v first zero = ap (λ x. x ∷ []) (ground arith)
  cells-update_past a v first (suc n) =
      ap₂ ◌∷◌ (update_ne a v (λ (e : first + suc n ≡ first). absurd (omega arith))) (
        ap (λ i. cells (update a i v) (suc first) (suc n)) {x = first + suc n} {y = suc first + n}
          (omega arith)
        ∙ cells-update_past a v (suc first) n)

  -- A list written over the cells from `first` on.
  abbrev pub store_cells : Array A → ℕ → List A → Array A
  store_cells a first [] = a
  store_cells a first (x ∷ xs) = update (store_cells a (suc first) xs) first x

  pub cells-store :
      (a : Array A) (first : ℕ) (xs : List A)
      → cells (store_cells a first xs) first (length xs) ≡ xs
  cells-store a first [] = refl
  cells-store a first (x ∷ xs) = ap₂ ◌∷◌ (ground arith) (
      cells-update_below (store_cells a (suc first) xs) first x (suc first) (length xs)
        (omega arith)
      ∙ cells-store a (suc first) xs)

  -- std::sort by a key
  abbrev pub insert : (A → ℕ) → A → List A → List A
  insert key x [] = x ∷ []
  insert key x (y ∷ ys) =
      let rest = insert key x ys in if leb (key x) (key y) then x ∷ y ∷ ys else y ∷ rest

  abbrev pub sort : (A → ℕ) → List A → List A
  sort key [] = []
  sort key (x ∷ xs) = insert key x (sort key xs)

  pub length-insert :
      (key : A → ℕ) (x : A) (xs : List A) → length (insert key x xs) ≡ suc (length xs)
  length-insert key x [] = refl
  length-insert key x (y ∷ ys) = ground (arith, length-insert key x ys)

  pub length-sort : (key : A → ℕ) (xs : List A) → length (sort key xs) ≡ length xs
  length-sort key [] = refl
  length-sort key (x ∷ xs) = length-insert key x (sort key xs) ∙ ap suc (length-sort key xs)

  insert-Perm : (key : A → ℕ) (x : A) (xs : List A) → Perm (insert key x xs) (x ∷ xs)
  insert-Perm key x [] = Perm.refl (x ∷ [])
  insert-Perm key x (y ∷ ys) =
      if_elim (λ l. Perm l (x ∷ y ∷ ys)) (leb (key x) (key y)) (λ _. Perm.refl (x ∷ y ∷ ys))
        (λ _. Perm.trans (Perm.cons y (insert-Perm key x ys)) (Perm.swap x y ys))

  -- A sort permutes the items.
  pub sort-Perm : (key : A → ℕ) (xs : List A) → Perm (sort key xs) xs
  sort-Perm key [] = Perm.nil
  sort-Perm key (x ∷ xs) =
      Perm.trans (insert-Perm key x (sort key xs)) (Perm.cons x (sort-Perm key xs))

  pub All-insert {κ} :
      (P : A → Type κ) (key : A → ℕ) (x : A) (xs : List A)
      → P x
      → All P xs
      → All P (insert key x xs)
  All-insert P key x [] h k = (h, tt)
  All-insert P key x (y ∷ ys) h k =
      if_elim (All P) (leb (key x) (key y)) (λ _. (h, k)) (λ _. (k.0, All-insert P key x ys h k.1))

  pub All-sort {κ} : (P : A → Type κ) (key : A → ℕ) (xs : List A) → All P xs → All P (sort key xs)
  All-sort P key [] h = tt
  All-sort P key (x ∷ xs) h = All-insert P key x (sort key xs) h.0 (All-sort P key xs h.1)

  abbrev pub Ascending : (A → ℕ) → List A → Type 0
  Ascending key [] = Unit
  Ascending key (x ∷ xs) = All (λ y. key x < key y) xs × Ascending key xs

  abbrev pub Distinct : (A → ℕ) → List A → Type 0
  Distinct key [] = Unit
  Distinct key (x ∷ xs) = All (λ y. key x ≢ key y) xs × Distinct key xs

  pub Distinct-split :
      (key : A → ℕ) (xs ys : List A)
      → Distinct key (xs ++ ys)
      → Distinct key xs × Distinct key ys × All (λ x. All (λ y. key x ≢ key y) ys) xs
  Distinct-split key [] ys h = (tt, h, tt)
  Distinct-split key (x ∷ xs) ys h =
      let (l, r, cross) = Distinct-split key xs ys h.1 in
      let (a, b) = All-split (λ y. key x ≢ key y) xs ys h.0 in ((a, l), r, (b, cross))

  pub Distinct-join :
      (key : A → ℕ) (xs ys : List A)
      → Distinct key xs
      → Distinct key ys
      → All (λ x. All (λ y. key x ≢ key y) ys) xs
      → Distinct key (xs ++ ys)
  Distinct-join key [] ys l r cross = r
  Distinct-join key (x ∷ xs) ys l r cross =
      (All-append (λ y. key x ≢ key y) xs ys l.0 cross.0, Distinct-join key xs ys l.1 r cross.1)

  insert-Distinct :
      (key : A → ℕ) (x : A) (xs : List A)
      → All (λ y. key x ≢ key y) xs
      → Distinct key xs
      → Distinct key (insert key x xs)
  insert-Distinct key x [] h k = (tt, tt)
  insert-Distinct key x (y ∷ ys) h k =
      if_elim (Distinct key) (leb (key x) (key y)) (λ _. (h, k))
        (λ gt. (
          All-insert (λ z. key y ≢ key z) key x ys (λ e. h.0 (sym e)) k.0,
          insert-Distinct key x ys h.1 k.1,
        ))

  pub sort-Distinct : (key : A → ℕ) (xs : List A) → Distinct key xs → Distinct key (sort key xs)
  sort-Distinct key [] h = tt
  sort-Distinct key (x ∷ xs) h =
      insert-Distinct key x (sort key xs) (All-sort (λ y. key x ≢ key y) key xs h.0)
        (sort-Distinct key xs h.1)

  pub insert-Ascending :
      (key : A → ℕ) (x : A) (xs : List A)
      → All (λ y. key x ≢ key y) xs
      → Ascending key xs
      → Ascending key (insert key x xs)
  insert-Ascending key x [] h k = (tt, tt)
  insert-Ascending key x (y ∷ ys) h k =
      if_elim (Ascending key) (leb (key x) (key y))
        (λ le.
          let lt : key x < key y = ground (arith, h.0) in
          ((lt, All-imp ys (λ z l. omega arith) k.0), k))
        (λ gt. (
          All-insert (λ z. key y < key z) key x ys (ground arith) k.0,
          insert-Ascending key x ys h.1 k.1,
        ))

  -- A sort puts items with distinct keys in ascending order.
  pub sort-Ascending : (key : A → ℕ) (xs : List A) → Distinct key xs → Ascending key (sort key xs)
  sort-Ascending key [] h = tt
  sort-Ascending key (x ∷ xs) h =
      insert-Ascending key x (sort key xs) (All-sort (λ y. key x ≢ key y) key xs h.0)
        (sort-Ascending key xs h.1)

-- std::binary_search: the first item that is not below `k` is not above it either.
abbrev pub binary_search : List ℕ → ℕ → Bool
binary_search [] k = false
binary_search (x ∷ xs) k = if ltb x k then binary_search xs k else x == k

binary_search-insert :
    (x : ℕ) (xs : List ℕ) (k : ℕ)
    → binary_search (insert (λ y. y) x xs) k ≡ (x == k || binary_search xs k)
binary_search-insert x [] k = ground arith
binary_search-insert x (y ∷ ys) k = ground (arith, binary_search-insert x ys k)

-- A search in a sorted list finds what the list has.
pub binary_search-sort : (xs : List ℕ) (k : ℕ) → binary_search (sort (λ y. y) xs) k ≡ contains xs k
binary_search-sort [] k = refl
binary_search-sort (x ∷ xs) k =
    binary_search-insert x (sort (λ y. y) xs) k ∙ ap (λ b. x == k || b) (binary_search-sort xs k)
