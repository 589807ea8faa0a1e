-- ===== src/Prelude/Bits.antt =====
-- `(a | m) & m` is `m`.
use Prim.Native.Nat.{
  ℕ, zero, suc, ◌+◌, ◌*◌, ◌/◌, ◌%◌, ◌≤◌, min, max, bit_and, bit_or, digits, bit_and-bitwise,
  bit_or-bitwise,
}
use mathlib.Core.Path.{◌≡◌, refl, sym, ap, ◌∙◌}
use native.Mathlib.Decide.{ℕ_discrete}
use native.Mathlib.Omega.{arith}

module _ (rest : ℕ → ℕ) (op : ℕ → ℕ → ℕ) where
  -- One unit of fuel more than the first number needs changes nothing.
  more_fuel : (n a m : ℕ) → a ≤ n → digits rest op n a m ≡ digits rest op (suc n) a m
  more_fuel zero zero m le = refl
  more_fuel zero (suc a) m le = absurd (omega arith)
  more_fuel (suc n) zero m le = refl
  more_fuel (suc n) (suc a) m le =
      ap (λ d. d * 2 + op (suc a % 2) (m % 2)) (more_fuel n (suc a / 2) (m / 2) (omega arith))

  enough_fuel : (j n a m : ℕ) → a ≤ n → n ≤ j → digits rest op j a m ≡ digits rest op n a m
  enough_fuel zero zero a m le more = refl
  enough_fuel zero (suc n) a m le more = absurd (omega arith)
  enough_fuel (suc j) n a m le more = elim (ℕ_discrete n (suc j)) [
    | yes e ↦ ap (λ k. digits rest op k a m) (sym e)
    | no ne ↦ sym (more_fuel j a m (omega arith)) ∙ enough_fuel j n a m le (omega arith)
  ]

  lowest_digit :
      (a m : ℕ)
      → digits rest op (suc a) (suc a) m
        ≡ digits rest op (suc a / 2) (suc a / 2) (m / 2) * 2 + op (suc a % 2) (m % 2)
  lowest_digit a m =
      ap (λ d. d * 2 + op (suc a % 2) (m % 2))
        (enough_fuel a (suc a / 2) (suc a / 2) (m / 2) (omega arith) (omega arith))

bit_or_digit : (a m : ℕ) → bit_or a m ≡ bit_or (a / 2) (m / 2) * 2 + max (a % 2) (m % 2)
bit_or_digit zero m = simp bit_or-bitwise (omega arith)
bit_or_digit (suc a) m = simp bit_or-bitwise (lowest_digit (λ y. y) max a m)

bit_and_digit : (a m : ℕ) → bit_and a m ≡ bit_and (a / 2) (m / 2) * 2 + min (a % 2) (m % 2)
bit_and_digit zero m = simp bit_and-bitwise (omega arith)
bit_and_digit (suc a) m = simp bit_and-bitwise (lowest_digit (λ y. 0) min a m)

absorbs : (n a m : ℕ) → a + m ≤ n → bit_and (bit_or a m) m ≡ m
absorbs zero zero zero le = refl
absorbs zero (suc a) m le = absurd (omega arith)
absorbs zero zero (suc m) le = absurd (omega arith)
absorbs (suc n) zero zero le = refl
absorbs (suc n) a m le =
    let half : ℕ = bit_or (a / 2) (m / 2) in
    let o : bit_or a m ≡ half * 2 + max (a % 2) (m % 2) = bit_or_digit a m in
    let high : bit_or a m / 2 ≡ half = omega arith in
    let below : bit_and half (m / 2) ≡ m / 2 = absorbs n (a / 2) (m / 2) (omega arith) in
    omega (arith, bit_and_digit (bit_or a m) m, ap (λ h. bit_and h (m / 2)) high, below, o)

pub bit_and-bit_or : (a m : ℕ) → bit_and (bit_or a m) m ≡ m
bit_and-bit_or a m = absorbs (a + m) a m (omega arith)
