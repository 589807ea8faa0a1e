-- ===== src/Prelude/Memory.antt =====
-- A C array as the function from its indices to its cells. That an index is in range is stated
-- by the invariants.
use Prim.Native.Nat.{ℕ, zero, suc, ◌+◌, ◌%◌, ◌<◌}
use mathlib.Core.Path.{◌≡◌, refl, ap, ap₂, ◌∙◌}
use mathlib.Core.Logic.{◌≢◌}
use mathlib.Core.List.{List, [], ◌∷◌, ◌++◌}
use native.Mathlib.Nat.{mod-add-mod, mod-eq_of_lt, add-zero}
use native.Mathlib.Omega.{arith}
use temp_data_structure_benc.Prelude.Ring.{mod-cases}
use temp_data_structure_benc.Prelude.Tests.{◌==◌, if◌then◌else◌}

abbrev pub Array {ℓ} : Type ℓ → Type ℓ
Array A = ℕ → A

-- `a[i] = v`
abbrev pub update {ℓ} : {A : Type ℓ} → Array A → ℕ → A → Array A
update a i v j = if i == j then v else a j

pub update_self {ℓ} : {A : Type ℓ} (a : Array A) (i : ℕ) (v : A) → update a i v i ≡ v
update_self a i v = ground arith

pub update_ne {ℓ} : {A : Type ℓ} (a : Array A) {i j : ℕ} (v : A) → i ≢ j → update a i v j ≡ a j
update_ne a {i} {j} v h = ground arith

-- A move of less than one round in a ring ends at another index.
pub add-mod-ne : {h n cap : ℕ} → suc n < cap → h < cap → (h + suc n) % cap ≢ h
add-mod-ne {h} {n} {cap} some in_ring = omega (arith, mod-cases cap (h + suc n) (omega arith))

add-mod-step : (h n cap : ℕ) → (h + suc n) % cap ≡ ((h + 1) % cap + n) % cap
add-mod-step h n cap = rw mod-add-mod (ap (λ k. k % cap) (omega arith))

module _ {ℓ} {A : Type ℓ} (cap : ℕ) where
  -- the `n` cells from index `h` on, going round at `cap`
  abbrev pub window : Array A → ℕ → ℕ → List A
  window a h zero = []
  window a h (suc n) = a h ∷ window a ((h + 1) % cap) n

  -- A write just past the window, at a free cell, leaves the window alone.
  pub window-update :
      (a : Array A) (x : A) (n h i : ℕ)
      → h < cap
      → n < cap
      → i ≡ (h + n) % cap
      → window (update a i x) h n ≡ window a h n
  window-update a x zero h i hh hn e = refl
  window-update a x (suc n) h i hh hn e =
      ap₂ ◌∷◌ (update_ne a x (λ (q : i ≡ h). add-mod-ne hn hh (rw (← e) q))) (
        window-update a x n ((h + 1) % cap) i (omega arith) (omega arith)
          (e ∙ add-mod-step h n cap))

  pub window-suc :
      (a : Array A) (n h : ℕ)
      → h < cap
      → window a h (suc n) ≡ window a h n ++ (a ((h + n) % cap) ∷ [])
  window-suc a zero h hh = rw (add-zero, mod-eq_of_lt hh)
  window-suc a (suc n) h hh =
      ap (◌∷◌ (a h)) (rw (add-mod-step h n cap) (window-suc a n ((h + 1) % cap) (omega arith)))

  -- A write to the cell just past the window, followed by its inclusion, appends the value.
  pub window-push :
      (a : Array A) (x : A) (n h i : ℕ)
      → h < cap
      → n < cap
      → i ≡ (h + n) % cap
      → window (update a i x) h (suc n) ≡ window a h n ++ (x ∷ [])
  window-push a x n h i hh hn e =
      window-suc (update a i x) n h hh
      ∙ ap₂ (λ (l : List A) (y : A). l ++ (y ∷ [])) (window-update a x n h i hh hn e)
          (rw (← e) (update_self a i x))
