-- ===== src/Bag/Remove/Lists.antt =====
-- The lists of blocks of a bag between two calls: chains from the heads, with no marks.
use temp_data_structure_benc.Prelude.{
  ℕ, ◌≡◌, ◌≢◌, ◌⊎◌, ◌∙◌, inr, refl, sym, ap, true, false, List, [], ◌∷◌, ◌++◌, Array, update,
  update_self, update_ne, All, All-imp, arith,
}
use mathlib.Core.Path.{subst}
use native.Mathlib.Decide.{ℕ_discrete}
use temp_data_structure_benc.Prelude.Sort.{contains, contains-All, Distinct}
use temp_data_structure_benc.Bag.State.{Link, plain, deleted_link}

-- From the pointer `h` the links lead through `ns` to NULL, none of them marked.
abbrev pub Walks : Array Link → ℕ → List ℕ → Type 0
Walks next h [] = h ≡ 0
Walks next h (n ∷ ns) =
    (h ≡ n) × (n ≢ 0) × (next n ≡ plain (next n).ptr) × Walks next (next n).ptr ns

abbrev pub first : List ℕ → ℕ
first [] = 0
first (n ∷ ns) = n

abbrev pub Simple : List ℕ → Type 0
Simple = Distinct (λ n. n)

All-absent : (ns : List ℕ) (n : ℕ) → All (λ m. m ≢ n) ns → contains ns n ≡ false
All-absent [] n a = refl
All-absent (m ∷ ns) n a = ground (arith, a.0, All-absent ns n a.1)

pub contains-middle : (xs : List ℕ) (n : ℕ) (ys : List ℕ) → contains (xs ++ (n ∷ ys)) n ≡ true
contains-middle [] n ys = ground arith
contains-middle (x ∷ xs) n ys = ground (arith, contains-middle xs n ys)

pub contains-append :
    (xs ys : List ℕ) (n : ℕ)
    → contains (xs ++ ys) n ≡ true
    → (contains xs n ≡ true) ⊎ (contains ys n ≡ true)
contains-append [] ys n h = inr h
contains-append (x ∷ xs) ys n h = ground (arith, h, contains-append xs ys n)

pub contains-right : (xs ys : List ℕ) (n : ℕ) → contains ys n ≡ true → contains (xs ++ ys) n ≡ true
contains-right [] ys n h = h
contains-right (x ∷ xs) ys n h = ground (arith, contains-right xs ys n h)

pub contains-left : (xs ys : List ℕ) (n : ℕ) → contains xs n ≡ true → contains (xs ++ ys) n ≡ true
contains-left [] ys n h = absurd (cc (h))
contains-left (x ∷ xs) ys n h = ground (arith, h, contains-left xs ys n)

-- Where a block of the list stands in it.
pub split :
    (ns : List ℕ) (n : ℕ)
    → contains ns n ≡ true
    → (xs : List ℕ) × (ys : List ℕ) × (ns ≡ xs ++ (n ∷ ys))
split [] n h = absurd (cc (h))
split (m ∷ ns) n h = elim (ℕ_discrete m n) [
  | yes e ↦ ([], ns, ap (λ k. k ∷ ns) e)
  | no ne ↦ let (xs, ys, e) = split ns n (ground (arith, h)) in (m ∷ xs, ys, ap (◌∷◌ m) e)
]

pub Walks-first : (next : Array Link) (h : ℕ) (ns : List ℕ) → Walks next h ns → h ≡ first ns
Walks-first next h [] w = w
Walks-first next h (n ∷ ns) w = w.0

-- The list from one of its blocks on.
pub Walks-drop :
    (next : Array Link) (h : ℕ) (xs : List ℕ) (n : ℕ) (ys : List ℕ)
    → Walks next h (xs ++ (n ∷ ys))
    → Walks next n (n ∷ ys)
Walks-drop next h [] n ys w = (refl, w.1, w.2, w.3)
Walks-drop next h (x ∷ xs) n ys w = Walks-drop next (next x).ptr xs n ys w.3

-- What a block's link is.
pub Walks-next :
    (next : Array Link) (h : ℕ) (xs : List ℕ) (n : ℕ) (ys : List ℕ)
    → Walks next h (xs ++ (n ∷ ys))
    → (n ≢ 0) × (next n ≡ plain (first ys))
Walks-next next h xs n ys w =
    let (_, nz, e, rest) = Walks-drop next h xs n ys w in
    (nz, e ∙ ap plain (Walks-first next (next n).ptr ys rest))

-- A change of links outside the list.
pub Walks-same :
    (next next' : Array Link) (h : ℕ) (ns : List ℕ)
    → ((n : ℕ) → contains ns n ≡ true → next' n ≡ next n)
    → Walks next h ns
    → Walks next' h ns
Walks-same next next' h [] f w = w
Walks-same next next' h (n ∷ ns) f w =
    let e : next' n ≡ next n = f n (ground arith) in
    let p : (next n).ptr ≡ (next' n).ptr = ap (λ (l : Link). l.ptr) (sym e) in
    (
      w.0,
      w.1,
      e ∙ w.2 ∙ ap plain p,
      subst (λ k. Walks next' k ns) p
          (Walks-same next next' (next n).ptr ns (λ m has. f m (ground (arith, has))) w.3),
    )

-- The links of a list after one of its blocks has been cut out, between `p` and `q`.
abbrev pub cut : Array Link → ℕ → ℕ → ℕ → Array Link
cut next p n q = update (update next p (plain q)) n deleted_link

pub Simple-drop : (xs : List ℕ) (n : ℕ) (ys : List ℕ) → Simple (xs ++ (n ∷ ys)) → Simple (xs ++ ys)
Simple-drop [] n ys d = d.1
Simple-drop (x ∷ xs) n ys d = (without xs d.0, Simple-drop xs n ys d.1)
  where
    without : (zs : List ℕ) → All (λ y. x ≢ y) (zs ++ (n ∷ ys)) → All (λ y. x ≢ y) (zs ++ ys)
    without [] a = a.1
    without (z ∷ zs) a = (a.0, without zs a.1)

pub Simple-apart :
    (xs : List ℕ) (n : ℕ) (ys : List ℕ) → Simple (xs ++ (n ∷ ys)) → contains (xs ++ ys) n ≡ false
Simple-apart [] n ys d = All-absent ys n (All-imp ys (λ m h e. h (sym e)) d.0)
Simple-apart (x ∷ xs) n ys d =
    let ne : x ≢ n = contains-All (λ y. x ≢ y) (xs ++ (n ∷ ys)) n d.0 (contains-middle xs n ys) in
    ground (arith, ne, Simple-apart xs n ys d.1)

pub cut_ne : (next : Array Link) (p n q m : ℕ) → p ≢ m → n ≢ m → cut next p n q m ≡ next m
cut_ne next p n q m ne_p ne_n =
    update_ne (update next p (plain q)) deleted_link ne_n ∙ update_ne next (plain q) ne_p

pub Walks-cut :
    (next : Array Link) (h : ℕ) (xs : List ℕ) (p n : ℕ) (ys : List ℕ)
    → Simple (xs ++ (p ∷ n ∷ ys))
    → Walks next h (xs ++ (p ∷ n ∷ ys))
    → Walks (cut next p n (first ys)) h (xs ++ (p ∷ ys))
Walks-cut next h [] p n ys d w =
    let (_, n_nz, _, rest) = w.3 in
    let at_p : cut next p n (first ys) p ≡ plain (first ys) =
      update_ne (update next p (plain (first ys))) deleted_link (λ e. d.0.0 (sym e))
      ∙ update_self next p (plain (first ys)) in
    let to : (cut next p n (first ys) p).ptr ≡ first ys = ap (λ (l : Link). l.ptr) at_p in
    (
      w.0,
      w.1,
      at_p ∙ ap plain (sym to),
      subst (λ k. Walks (cut next p n (first ys)) k ys)
          (Walks-first next (next n).ptr ys rest ∙ sym to)
          (Walks-same next (cut next p n (first ys)) (next n).ptr ys
            (λ m has.
              cut_ne next p n (first ys) m (λ e. apart m has (sym e)) (λ e. outside m has (sym e)))
            rest),
    )
  where
    apart : (m : ℕ) → contains ys m ≡ true → m ≢ p
    apart m has e = contains-All (λ y. p ≢ y) ys m d.0.1 has (sym e)

    outside : (m : ℕ) → contains ys m ≡ true → m ≢ n
    outside m has e = contains-All (λ y. n ≢ y) ys m d.1.0 has (sym e)
Walks-cut next h (x ∷ xs) p n ys d w =
    let ne_p : p ≢ x = λ e.
      contains-All (λ y. x ≢ y) (xs ++ (p ∷ n ∷ ys)) p d.0 (contains-middle xs p (n ∷ ys))
        (sym e) in
    let ne_n : n ≢ x = λ e.
      contains-All (λ y. x ≢ y) (xs ++ (p ∷ n ∷ ys)) n d.0
        (contains-right xs (p ∷ n ∷ ys) n (ground arith)) (sym e) in
    let at_x : cut next p n (first ys) x ≡ next x = cut_ne next p n (first ys) x ne_p ne_n in
    let to : (next x).ptr ≡ (cut next p n (first ys) x).ptr = ap (λ (l : Link). l.ptr) (sym at_x) in
    (
      w.0,
      w.1,
      at_x ∙ w.2 ∙ ap plain to,
      subst (λ k. Walks (cut next p n (first ys)) k (xs ++ (p ∷ ys))) to
          (Walks-cut next (next x).ptr xs p n ys d.1 w.3),
    )
