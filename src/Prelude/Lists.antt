-- ===== src/Prelude/Lists.antt =====
-- Lists measured by native numbers, under the library's names.
use Prim.Native.Nat.{ℕ, zero, suc, ◌+◌, ◌%◌, ◌≤◌}
use mathlib.Core.Path.{◌≡◌, refl, ap}
use mathlib.Core.Logic.{◌≢◌}
use mathlib.Core.List.{List, [], ◌∷◌, ◌++◌, map}
use native.Mathlib.Omega.{arith}
use temp_data_structure_benc.Prelude.Memory.{Array, window}

module _ {ℓ} {A : Type ℓ} where
  abbrev pub length : List A → ℕ
  length [] = 0
  length (x ∷ xs) = suc (length xs)

  pub length-append : (xs ys : List A) → length (xs ++ ys) ≡ length xs + length ys
  length-append [] ys = omega arith
  length-append (x ∷ xs) ys = omega (arith, length-append xs ys)

  pub length-window : (cap : ℕ) (a : Array A) (h n : ℕ) → length (window cap a h n) ≡ n
  length-window cap a h zero = refl
  length-window cap a h (suc n) = ap suc (length-window cap a ((h + 1) % cap) n)

module _ {ℓ} {A : Type ℓ} where
  abbrev pub get_or : List A → ℕ → A → A
  get_or [] i d = d
  get_or (x ∷ xs) zero d = x
  get_or (x ∷ xs) (suc i) d = get_or xs i d

  pub get_or_beyond : (xs : List A) (i : ℕ) (d : A) → length xs ≤ i → get_or xs i d ≡ d
  get_or_beyond [] i d h = refl
  get_or_beyond (x ∷ xs) zero d h = absurd (omega arith)
  get_or_beyond (x ∷ xs) (suc i) d h = get_or_beyond xs i d (omega arith)

  pub get_or-append_last : (xs : List A) (x d : A) → get_or (xs ++ (x ∷ [])) (length xs) d ≡ x
  get_or-append_last [] x d = refl
  get_or-append_last (y ∷ xs) x d = get_or-append_last xs x d

  pub get_or-append_ne :
      (xs : List A) (i : ℕ) (x d : A) → i ≢ length xs → get_or (xs ++ (x ∷ [])) i d ≡ get_or xs i d
  get_or-append_ne [] zero x d h = absurd (h refl)
  get_or-append_ne [] (suc i) x d h = refl
  get_or-append_ne (y ∷ xs) zero x d h = refl
  get_or-append_ne (y ∷ xs) (suc i) x d h = get_or-append_ne xs i x d (λ e. h (ap suc e))

module _ {ℓ κ} {A : Type ℓ} (P : A → Type κ) where
  -- A predicate of every item, which computes to a tuple.
  abbrev pub All : List A → Type κ
  All [] = Unit
  All (item ∷ rest) = P item × All rest

  pub All-append : (front back : List A) → All front → All back → All (front ++ back)
  All-append [] back f b = b
  All-append (item ∷ rest) back (here, there) b = (here, All-append rest back there b)

  pub All-split : (front back : List A) → All (front ++ back) → All front × All back
  All-split [] back h = (tt, h)
  All-split (item ∷ rest) back (here, there) =
      let (f, b) = All-split rest back there in ((here, f), b)

-- One predicate in place of another.
pub All-imp {ℓ κ μ} :
    {A : Type ℓ} {P : A → Type κ} {Q : A → Type μ} (xs : List A)
    → ((x : A) → P x → Q x)
    → All P xs
    → All Q xs
All-imp [] f h = tt
All-imp (x ∷ xs) f (here, there) = (f x here, All-imp xs f there)

pub All-both {ℓ κ μ} :
    {A : Type ℓ} (P : A → Type κ) (Q : A → Type μ) (xs : List A)
    → All P xs
    → All Q xs
    → All (λ x. P x × Q x) xs
All-both P Q [] h k = tt
All-both P Q (x ∷ xs) h k = ((h.0, k.0), All-both P Q xs h.1 k.1)

pub length-map {ℓ κ} :
    {A : Type ℓ} {B : Type κ} (f : A → B) (xs : List A) → length (map f xs) ≡ length xs
length-map f [] = refl
length-map f (x ∷ xs) = ap suc (length-map f xs)
