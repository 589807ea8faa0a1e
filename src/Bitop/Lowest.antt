-- ===== src/Bitop/Lowest.antt =====
-- `lsb32` and `lsb64` of bitop_generic.h find the lowest bit.
use Prim.Native.Nat.{bit_and}
use temp_data_structure_benc.Prelude.{
  ℕ, suc, ◌≤◌, ◌+◌, ◌-◌, ◌*◌, ◌/◌, ◌%◌, ◌^◌, ◌<◌, ◌≡◌, ◌≢◌, sym, ap, ◌∙◌, ◌==◌, if_elim, ==_iff,
  arith,
}
use temp_data_structure_benc.Prelude.Mask.{bit_and-mask, two-pow_pos}
use native.Mathlib.Nat.{mul_assoc, mul-one, add-mul, pow-suc}
use temp_data_structure_benc.Bitop.{lsb_step, lsb32, lsb64}
use temp_data_structure_benc.Bitop.Highest.{two-pow_add}
use native.Mathlib.Decide.{dec_lt}

-- The word is `x` shifted down, `x` has no bit that is shifted out, and r counts the shift. One of the
-- lowest bits of the word, which `low` says, is set.
pub record Lowered (x : ℕ) (low : ℕ → Type 0) (p : ℕ × ℕ) : Type 0 where
  pub e : ℕ
  pub whole : x ≡ p.0 * 2 ^ e
  pub set : low p.0
  pub count : p.1 ≡ e + 1

lsb_step-Lowered :
    {x : ℕ} {wide low : ℕ → Type 0} (mask s : ℕ) (p : ℕ × ℕ)
    → ((y : ℕ) → wide y → bit_and y mask ≡ 0 → (y ≡ y / 2 ^ s * 2 ^ s) × low (y / 2 ^ s))
    → ((y : ℕ) → wide y → bit_and y mask ≢ 0 → low y)
    → Lowered x wide p
    → Lowered x low (lsb_step mask s p)
unfolding lsb_step
lsb_step-Lowered {x} {wide} {low} mask s (y, r) zero_case other k =
    if_elim (Lowered x low) (bit_and y mask == 0)
      (λ z.
        let (exact, rest) = zero_case y k.set ((==_iff _ 0).0 z) in
        record {
          e = s + k.e;
          whole =
              k.whole
              ∙ ap (λ m. m * 2 ^ k.e) exact
              ∙ mul_assoc (y / 2 ^ s) (2 ^ s) (2 ^ k.e)
              ∙ ap (λ m. y / 2 ^ s * m) (sym (two-pow_add s k.e));
          set = rest;
          count = omega (arith, k.count);
        })
      (λ nz. record {
        e = k.e;
        whole = k.whole;
        set = other y k.set (ground (arith, nz));
        count = k.count;
      })

-- The lowest bit of `x` is the bit `r`, counted from 1: `x` is an odd multiple of 2 ^ (r - 1).
abbrev pub LowestBit : ℕ → ℕ → Type 0
LowestBit x r = (0 < r) × (q : ℕ) × (x ≡ (2 * q + 1) * 2 ^ (r - 1))

Lowered-LowestBit : {x : ℕ} {p : ℕ × ℕ} → Lowered x (λ y. y % 2 ≢ 0) p → LowestBit x p.1
Lowered-LowestBit {x} {p} k =
    let odd : p.0 ≡ 2 * (p.0 / 2) + 1 = omega (arith, k.set) in
    let shift : k.e ≡ p.1 - 1 = omega (arith, k.count) in
    (
      omega (arith, k.count),
      p.0 / 2,
      k.whole ∙ ap (λ m. m * 2 ^ k.e) odd ∙ ap (λ m. (2 * (p.0 / 2) + 1) * 2 ^ m) shift,
    )

-- For a word other than 0, `lsb32` returns the position of its lowest bit, counted from 1.
pub lsb32_lem : (x : ℕ) → x ≢ 0 → x < 2 ^ 32 → LowestBit x (lsb32 x)
unfolding lsb32
lsb32_lem x nz word =
    if_elim (LowestBit x) (x == 0) (λ z. absurd (nz ((==_iff x 0).0 z)))
      (λ _. Lowered-LowestBit (
        lsb_step-Lowered {wide = λ y. y % 4 ≢ 0} 1 1 _ (λ y w z. omega (arith, bit_and-mask y 1))
          (λ y w z. omega (arith, bit_and-mask y 1))
          (lsb_step-Lowered {wide = λ y. y % 16 ≢ 0} 3 2 _
            (λ y w z. omega (arith, bit_and-mask y 2)) (λ y w z. omega (arith, bit_and-mask y 2))
            (lsb_step-Lowered {wide = λ y. y % 256 ≢ 0} 0xf 4 _
              (λ y w z. omega (arith, bit_and-mask y 4)) (λ y w z. omega (arith, bit_and-mask y 4))
              (lsb_step-Lowered {wide = λ y. y % 65536 ≢ 0} 0xff 8 _
                (λ y w z. omega (arith, bit_and-mask y 8))
                (λ y w z. omega (arith, bit_and-mask y 8))
                (lsb_step-Lowered {wide = λ y. y % 2 ^ 32 ≢ 0} 0xffff 16 (x, 1)
                  (λ y w z. omega (arith, bit_and-mask y 16))
                  (λ y w z. omega (arith, bit_and-mask y 16)) start))))))
  where
    start : Lowered x (λ y. y % 2 ^ 32 ≢ 0) (x, 1)
    start = record { e = 0; whole = sym (mul-one x); set = omega arith; count = omega arith }

-- The lowest bit of a 32-bit word is at most its 32nd.
LowestBit-small : (l r : ℕ) → l < 2 ^ 32 → LowestBit l r → r ≤ 32
LowestBit-small l r word (pos, q, e) = elim (dec_lt 32 r) [
  | yes big ↦ absurd (
      omega (
        arith,
        add-mul (2 * q) 1 (2 ^ (r - 1)),
        two-pow_add 32 (r - 33),
        two-pow_pos (r - 33),
        ap (λ m. 2 ^ m) {x = r - 1} {y = 32 + (r - 33)} (omega arith),
      ))
  | no h ↦ omega arith
]

-- The lowest bit of a number from that of its lower half.
LowestBit-lower : (x r : ℕ) → LowestBit (x % 2 ^ 32) r → LowestBit x r
LowestBit-lower x r (pos, q, e) =
    let small : r ≤ 32 = LowestBit-small (x % 2 ^ 32) r (omega arith) (pos, q, e) in
    let round : 2 ^ (32 - r) * 2 * 2 ^ (r - 1) ≡ 2 ^ 32 =
      ap (λ m. m * 2 ^ (r - 1)) (sym (pow-suc 2 (32 - r)))
      ∙ sym (two-pow_add (suc (32 - r)) (r - 1))
      ∙ ap (λ m. 2 ^ m) {y = 32} (omega arith) in
    let upper : x / 2 ^ 32 * (2 ^ (32 - r) * 2) * 2 ^ (r - 1) ≡ x / 2 ^ 32 * 2 ^ 32 =
      mul_assoc (x / 2 ^ 32) (2 ^ (32 - r) * 2) (2 ^ (r - 1)) ∙ ap (λ m. x / 2 ^ 32 * m) round in
    (
      pos,
      q + x / 2 ^ 32 * 2 ^ (32 - r),
      omega (arith, upper, add-mul (2 * q + 1) (x / 2 ^ 32 * (2 ^ (32 - r) * 2)) (2 ^ (r - 1)))
          ∙ ap (λ m. m * 2 ^ (r - 1)) {x = 2 * q + 1 + x / 2 ^ 32 * (2 ^ (32 - r) * 2)}
              {y = 2 * (q + x / 2 ^ 32 * 2 ^ (32 - r)) + 1}
              (omega (arith, mul_assoc (x / 2 ^ 32) (2 ^ (32 - r)) 2)),
    )

-- The lowest bit of a number from that of its upper half, where the lower half is 0.
LowestBit-upper : (x h r : ℕ) → h * 2 ^ 32 ≡ x → LowestBit h r → LowestBit x (r + 32)
LowestBit-upper x h r whole (pos, q, e) = (
  omega arith,
  q,
  sym whole
      ∙ ap (λ m. m * 2 ^ 32) e
      ∙ mul_assoc (2 * q + 1) (2 ^ (r - 1)) (2 ^ 32)
      ∙ ap (λ m. (2 * q + 1) * m) (sym (two-pow_add (r - 1) 32))
      ∙ ap (λ m. (2 * q + 1) * 2 ^ m) {y = r + 32 - 1} (omega arith),
)

-- For a 64-bit word other than 0, `lsb64` returns the position of its lowest bit, counted from 1.
pub lsb64_lem : (x : ℕ) → x ≢ 0 → x < 2 ^ 64 → LowestBit x (lsb64 x)
unfolding lsb64
lsb64_lem x nz word =
    if_elim (LowestBit x) (x == 0) (λ z. absurd (nz ((==_iff x 0).0 z)))
      (λ _.
        if_elim (LowestBit x) (bit_and x 0xffffffff == 0)
          (λ z.
            let none : x % 2 ^ 32 ≡ 0 = sym (bit_and-mask x 32) ∙ (==_iff _ 0).0 z in
            LowestBit-upper x (x / 2 ^ 32 % 2 ^ 32) (lsb32 (x / 2 ^ 32 % 2 ^ 32)) (omega arith)
              (lsb32_lem (x / 2 ^ 32 % 2 ^ 32) (omega arith) (omega arith)))
          (λ h.
            LowestBit-lower x (lsb32 (x % 2 ^ 32))
              (lsb32_lem (x % 2 ^ 32) (ground (arith, bit_and-mask x 32, h)) (omega arith))))
