-- ===== src/Prelude/Mask.antt =====
-- `n & (2 ^ k - 1)` is `n % 2 ^ k`, and how remainders go round.
use Prim.Native.Nat.{
  ℕ, zero, suc, ◌+◌, ◌-◌, ◌*◌, ◌/◌, ◌%◌, ◌^◌, ◌≤◌, ◌<◌, min, bit_and, digits, bit_and-bitwise,
}
use mathlib.Core.Path.{◌≡◌, sym, ap, ◌∙◌}
use mathlib.Core.Logic.{◌≢◌}
use native.Mathlib.Nat.{
  div-add-mod', add-mul-mod_self_right, mod-lt, mod-eq_of_lt, two-pow-succ, mod-add-mod, mul-add,
  zero-mod,
}
use native.Mathlib.Nat.{mul-one, div-one, zero-div, div-div-eq-div-mul}
use native.Mathlib.Decide.{ℕ_discrete}
use native.Mathlib.Omega.{arith}
use temp_data_structure_benc.Prelude.Memory.{add-mod-ne}

pub two-pow_pos : (k : ℕ) → 0 < 2 ^ k
two-pow_pos zero = omega arith
two-pow_pos (suc k) = omega (arith, two-pow-succ k, two-pow_pos k)

-- The remainder by an even number, from the lowest digit and the rest.
mod-double : (a m : ℕ) → 0 < m → a % (m + m) ≡ a / 2 % m * 2 + a % 2
mod-double a m pos =
    ap (λ n. n % (m + m)) parts
    ∙ add-mul-mod_self_right (a / 2 % m * 2 + a % 2) (a / 2 / m) (m + m)
    ∙ mod-eq_of_lt (omega (arith, mod-lt (a / 2) pos))
  where
    parts : a ≡ a / 2 % m * 2 + a % 2 + a / 2 / m * (m + m)
    parts = omega (arith, div-add-mod' (a / 2) m, mul-add (a / 2 / m) m m)

low_digits : (n a k : ℕ) → a ≤ n → digits (λ _. 0) min n a (2 ^ k - 1) ≡ a % 2 ^ k
low_digits zero zero k h = sym (zero-mod (2 ^ k))
low_digits zero (suc a) k h = absurd (omega arith)
low_digits (suc n) zero k h = sym (zero-mod (2 ^ k))
low_digits (suc n) (suc a) zero h = omega (arith, low_digits n (suc a / 2) 0 (omega arith))
low_digits (suc n) (suc a) (suc k) h =
    let half : (2 ^ suc k - 1) / 2 ≡ 2 ^ k - 1 = omega (arith, two-pow-succ k, two-pow_pos k) in
    let rest : digits (λ _. 0) min n (suc a / 2) ((2 ^ suc k - 1) / 2) ≡ suc a / 2 % 2 ^ k =
      rw half (low_digits n (suc a / 2) k (omega arith)) in
    omega (
      arith,
      rest,
      mod-double (suc a) (2 ^ k) (two-pow_pos k),
      two-pow-succ k,
      two-pow_pos k,
      ap (λ m. suc a % m) (two-pow-succ k),
    )

pub bit_and-mask : (a k : ℕ) → bit_and a (2 ^ k - 1) ≡ a % 2 ^ k
bit_and-mask a k = simp bit_and-bitwise (low_digits a a k (omega arith))

-- Two numbers less than a round apart with the same remainder are the same.
pub mod_unique : (c p q : ℕ) → p % c ≡ q % c → p ≤ q → q < p + c → p ≡ q
mod_unique c p q e h k = elim (ℕ_discrete p q) [
  | yes same ↦ same
  | no ne ↦ absurd (
      add-mod-ne {h = p % c} {n = q - p - 1} {cap = c} (omega arith) (mod-lt p (omega arith))
        (mod-add-mod p c (suc (q - p - 1)) ∙ ap (λ n. n % c) (around (omega arith) ne) ∙ sym e))
]
  where
    around : p ≤ q → p ≢ q → p + suc (q - p - 1) ≡ q
    around a b = omega arith

zero_high : (i j : ℕ) → 0 / 2 ^ i % 2 ^ j * 2 ^ i ≡ 0
zero_high i j = rw (zero-div (2 ^ i), zero-mod (2 ^ j)) (omega arith)

-- A mask of `j` ones above `i` zeros.
high_digits :
    (i n a j : ℕ)
    → a ≤ n
    → digits (λ _. 0) min n a ((2 ^ j - 1) * 2 ^ i) ≡ a / 2 ^ i % 2 ^ j * 2 ^ i
high_digits zero n a j h =
    ap (digits (λ _. 0) min n a) (mul-one (2 ^ j - 1))
    ∙ low_digits n a j h
    ∙ ap (λ m. m % 2 ^ j) (sym (div-one a))
    ∙ sym (mul-one (a / 1 % 2 ^ j))
high_digits (suc i) zero zero j h = sym (zero_high (suc i) j)
high_digits (suc i) zero (suc a) j h = absurd (omega arith)
high_digits (suc i) (suc n) zero j h = sym (zero_high (suc i) j)
high_digits (suc i) (suc n) (suc a) j h =
    let mask : ℕ = (2 ^ j - 1) * 2 ^ i in
    let twice : (2 ^ j - 1) * 2 ^ suc i ≡ mask + mask =
      ap (λ m. (2 ^ j - 1) * m) (two-pow-succ i) ∙ mul-add (2 ^ j - 1) (2 ^ i) (2 ^ i) in
    let rest : digits (λ _. 0) min n (suc a / 2) ((mask + mask) / 2)
        ≡ suc a / 2 / 2 ^ i % 2 ^ j * 2 ^ i =
      ap (λ m. digits (λ _. 0) min n (suc a / 2) m) (omega arith)
      ∙ high_digits i n (suc a / 2) j (omega arith) in
    let q : ℕ = suc a / 2 / 2 ^ i % 2 ^ j in
    let below : q * 2 ^ suc i ≡ q * 2 ^ i + q * 2 ^ i =
      ap (λ m. q * m) (two-pow-succ i) ∙ mul-add q (2 ^ i) (2 ^ i) in
    let halves : suc a / 2 / 2 ^ i ≡ suc a / 2 ^ suc i =
      div-div-eq-div-mul (suc a) 2 (2 ^ i) ∙ ap (λ m. suc a / m) (omega (arith, two-pow-succ i)) in
    ap (digits (λ _. 0) min (suc n) (suc a)) twice
    ∙ omega (arith, rest, below, ap (λ m. m % 2 ^ j * 2 ^ suc i) halves)

pub bit_and-high : (a i j : ℕ) → bit_and a ((2 ^ j - 1) * 2 ^ i) ≡ a / 2 ^ i % 2 ^ j * 2 ^ i
bit_and-high a i j = simp bit_and-bitwise (high_digits i a a j (omega arith))
