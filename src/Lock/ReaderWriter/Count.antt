-- ===== src/Lock/ReaderWriter/Count.antt =====
-- How many threads stand at a place.
use temp_data_structure_benc.Prelude.{
  ℕ, zero, suc, ◌+◌, ◌≡◌, ◌≢◌, ◌<◌, ◌≤◌, ◌∙◌, Bool, true, refl, sym, ap, Array, update, update_self,
  update_ne, arith, if◌then◌else◌,
}
use native.Mathlib.Decide.{ℕ_discrete}

abbrev pub bit : Bool → ℕ
bit b = if b then 1 else 0

module _ {A : Type 0} (f : A → Bool) where
  -- The cells below a number that pass the test.
  abbrev pub count : Array A → ℕ → ℕ
  count a zero = 0
  count a (suc n) = bit (f (a n)) + count a n

  count_away : (a : Array A) (i : ℕ) (v : A) (n : ℕ) → n ≤ i → count (update a i v) n ≡ count a n
  count_away a i v zero le = refl
  count_away a i v (suc n) le =
      let ne : i ≢ n = λ e. absurd (omega arith) in
      ground (arith, count_away a i v n (omega arith), ap f (update_ne a v ne))

  pub count-update :
      (a : Array A) (i : ℕ) (v : A) (n : ℕ)
      → i < n
      → count (update a i v) n + bit (f (a i)) ≡ count a n + bit (f v)
  count-update a i v zero lt = absurd (omega arith)
  count-update a i v (suc n) lt = elim (ℕ_discrete i n) [
    | yes e ↦
        let new : bit (f (update a i v n)) ≡ bit (f v) =
          ap (λ k. bit (f (update a i v k))) (sym e) ∙ ap (λ x. bit (f x)) (update_self a i v) in
        let old : bit (f (a i)) ≡ bit (f (a n)) = ap (λ k. bit (f (a k))) e in
        ground (arith, new, old, count_away a i v n (omega arith))
    | no ne ↦
        ground (arith, ap (λ x. bit (f x)) (update_ne a v ne), count-update a i v n (omega arith))
  ]

  pub count_le : (a : Array A) (n : ℕ) → count a n ≤ n
  count_le a zero = omega arith
  count_le a (suc n) = ground (arith, count_le a n)

  pub count_pos : (a : Array A) (i n : ℕ) → i < n → f (a i) ≡ true → 0 < count a n
  count_pos a i zero lt e = absurd (omega arith)
  count_pos a i (suc n) lt e = elim (ℕ_discrete i n) [
    | yes z ↦ ground (arith, ap (λ k. f (a k)) (sym z) ∙ e)
    | no ne ↦ ground (arith, count_pos a i n (omega arith) e)
  ]
