-- ===== src/Bitop/Highest.antt =====
-- `msb32` and `msb64` of bitop_generic.h find the highest bit.
use Prim.Native.Nat.{bit_and}
use temp_data_structure_benc.Prelude.{
  ℕ, zero, suc, ◌+◌, ◌-◌, ◌*◌, ◌/◌, ◌%◌, ◌^◌, ◌≤◌, ◌<◌, ◌≡◌, ◌≢◌, sym, ap, ◌∙◌, ◌==◌, if_elim,
  ==_iff, arith,
}
use temp_data_structure_benc.Prelude.Mask.{bit_and-high, two-pow_pos}
use native.Mathlib.Nat.{
  mul_assoc, mul-one, pow-suc, mod-eq_of_lt, mul-le-mul_right, lt_of_mul-lt-mul_right,
  le_of_mul-le-mul_right,
}
use temp_data_structure_benc.Bitop.{msb_step, msb32, msb64}

-- The word is `x` shifted up, at least `lo` and below 2 ^ 32, and r counts down with the shift.
pub record Scaled (x lo d : ℕ) (p : ℕ × ℕ) : Type 0 where
  pub e : ℕ
  pub shifted : p.0 ≡ x * 2 ^ e
  pub high : lo ≤ p.0
  pub word : p.0 < 2 ^ 32
  pub count : e + p.1 ≡ 32
  pub left : d ≤ p.1

pub two-pow_add : (e s : ℕ) → 2 ^ (e + s) ≡ 2 ^ e * 2 ^ s
two-pow_add e zero = ap (λ m. 2 ^ m) (omega arith) ∙ sym (mul-one (2 ^ e))
two-pow_add e (suc s) =
    ap (λ m. 2 ^ m) (omega arith)
    ∙ pow-suc 2 (e + s)
    ∙ ap (λ m. m * 2) (two-pow_add e s)
    ∙ mul_assoc (2 ^ e) (2 ^ s) 2
    ∙ ap (λ m. 2 ^ e * m) (sym (pow-suc 2 s))

msb_step-Scaled :
    {x lo d : ℕ} (mask s hi d' : ℕ) (p : ℕ × ℕ)
    → ((y : ℕ) → y < 2 ^ 32 → bit_and y mask ≡ 0 → y * 2 ^ s < 2 ^ 32)
    → ((y : ℕ) → y < 2 ^ 32 → bit_and y mask ≢ 0 → hi ≤ y)
    → ((y : ℕ) → lo ≤ y → hi ≤ y * 2 ^ s)
    → s + d' ≤ d
    → Scaled x lo d p
    → Scaled x hi d' (msb_step mask s p)
unfolding msb_step
msb_step-Scaled {x} mask s hi d' (y, r) zero_case other up fits k =
    if_elim (Scaled x hi d') (bit_and y mask == 0)
      (λ z. record {
        e = k.e + s;
        shifted =
            mod-eq_of_lt (zero_case y k.word ((==_iff _ 0).0 z))
            ∙ ap (λ m. m * 2 ^ s) k.shifted
            ∙ mul_assoc x (2 ^ k.e) (2 ^ s)
            ∙ ap (λ m. x * m) (sym (two-pow_add k.e s));
        high = rw (mod-eq_of_lt (zero_case y k.word ((==_iff _ 0).0 z))) (up y k.high);
        word = omega arith;
        count = omega (arith, k.count, k.left);
        left = omega (arith, k.left);
      })
      (λ nz. record {
        e = k.e;
        shifted = k.shifted;
        high = other y k.word (ground (arith, nz));
        word = k.word;
        count = k.count;
        left = omega (arith, k.left);
      })

-- The highest bit of `x` is the bit `r`, counted from 1.
abbrev pub HighestBit : ℕ → ℕ → Type 0
HighestBit x r = (0 < r) × (2 ^ (r - 1) ≤ x) × (x < 2 ^ r)

Scaled-HighestBit : {x : ℕ} {p : ℕ × ℕ} → Scaled x (2 ^ 31) 1 p → HighestBit x p.1
Scaled-HighestBit {x} {p} k = (
  k.left,
  le_of_mul-le-mul_right {m = 2 ^ (p.1 - 1)} {n = x} {k = 2 ^ k.e}
      (omega (arith, low, k.high, k.shifted)) (two-pow_pos k.e),
  lt_of_mul-lt-mul_right (2 ^ k.e) {m = x} {n = 2 ^ p.1} (omega (arith, up, k.word, k.shifted)),
)
  where
    low : 2 ^ (p.1 - 1) * 2 ^ k.e ≡ 2 ^ 31
    low =
        sym (two-pow_add (p.1 - 1) k.e) ∙ ap (λ m. 2 ^ m) {y = 31} (omega (arith, k.count, k.left))

    up : 2 ^ p.1 * 2 ^ k.e ≡ 2 ^ 32
    up = sym (two-pow_add p.1 k.e) ∙ ap (λ m. 2 ^ m) {y = 32} (omega (arith, k.count))

-- For a word other than 0, `msb32` returns the position of its highest bit, counted from 1.
pub msb32_lem : (x : ℕ) → x ≢ 0 → x < 2 ^ 32 → HighestBit x (msb32 x)
unfolding msb32
msb32_lem x nz word =
    if_elim (HighestBit x) (x == 0) (λ z. absurd (nz ((==_iff x 0).0 z)))
      (λ _. Scaled-HighestBit (
        msb_step-Scaled 0x80000000 1 (2 ^ 31) 1 _ (λ y w z. omega (arith, bit_and-high y 31 1))
          (λ y w z. omega (arith, bit_and-high y 31 1)) (λ y h. omega arith) (omega arith)
          (msb_step-Scaled 0xc0000000 2 (2 ^ 30) 2 _ (λ y w z. omega (arith, bit_and-high y 30 2))
            (λ y w z. omega (arith, bit_and-high y 30 2)) (λ y h. omega arith) (omega arith)
            (msb_step-Scaled 0xf0000000 4 (2 ^ 28) 4 _ (λ y w z. omega (arith, bit_and-high y 28 4))
              (λ y w z. omega (arith, bit_and-high y 28 4)) (λ y h. omega arith) (omega arith)
              (msb_step-Scaled 0xff000000 8 (2 ^ 24) 8 _
                (λ y w z. omega (arith, bit_and-high y 24 8))
                (λ y w z. omega (arith, bit_and-high y 24 8)) (λ y h. omega arith) (omega arith)
                (msb_step-Scaled 0xffff0000 16 (2 ^ 16) 16 (x, 32)
                  (λ y w z. omega (arith, bit_and-high y 16 16))
                  (λ y w z. omega (arith, bit_and-high y 16 16)) (λ y h. omega arith) (omega arith)
                  start))))))
  where
    start : Scaled x 1 32 (x, 32)
    start = record {
      e = 0;
      shifted = sym (mul-one x);
      high = omega arith;
      word = word;
      count = omega arith;
      left = omega arith;
    }

-- The highest bit of a number from the highest bit of its upper half.
HighestBit-upper : (x h r : ℕ) → h ≡ x / 2 ^ 32 → HighestBit h r → HighestBit x (r + 32)
HighestBit-upper x h r e k = (
  omega arith,
  omega (arith, low, mul-le-mul_right (2 ^ 32) k.1),
  omega (arith, two-pow_add r 32, mul-le-mul_right (2 ^ 32) k.2),
)
  where
    low : 2 ^ (r + 32 - 1) ≡ 2 ^ (r - 1) * 2 ^ 32
    low = ap (λ m. 2 ^ m) (omega (arith, k.0)) ∙ two-pow_add (r - 1) 32

-- For a 64-bit word other than 0, `msb64` returns the position of its highest bit, counted from 1.
pub msb64_lem : (x : ℕ) → x ≢ 0 → x < 2 ^ 64 → HighestBit x (msb64 x)
unfolding msb64
msb64_lem x nz word =
    if_elim (HighestBit x) (x / 2 ^ 32 % 2 ^ 32 == 0)
      (λ z.
        let below : x < 2 ^ 32 = omega (arith, (==_iff _ 0).0 z) in
        rw (mod-eq_of_lt below) (msb32_lem x nz below))
      (λ h.
        HighestBit-upper x (x / 2 ^ 32 % 2 ^ 32) (msb32 (x / 2 ^ 32 % 2 ^ 32)) (omega arith)
          (msb32_lem (x / 2 ^ 32 % 2 ^ 32) (ground (arith, h)) (omega arith)))
