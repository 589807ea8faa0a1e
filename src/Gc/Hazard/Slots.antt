-- ===== src/Gc/Hazard/Slots.antt =====
-- The guards of HPAllocator: those that are free hold NULL.
use temp_data_structure_benc.Prelude.{
  ℕ, zero, suc, ◌+◌, ◌%◌, ◌^◌, ◌≤◌, ◌<◌, ◌≡◌, refl, ◌∙◌, arith, Array, update, update_self,
  update_ne,
}
use mathlib.Core.Path.{subst}
use native.Mathlib.Decide.{ℕ_discrete, dec_lt}
use temp_data_structure_benc.Gc.Hazard.{
  HpAllocator, alloc, free, fill, alloc_array, free_array, make_free_stack, set_guard,
}

-- A `fill` leaves the cells below alone.
pub fill_below : (arr : Array ℕ) (first count i : ℕ) → i < first → fill arr first count i ≡ arr i
fill_below arr first zero i h = refl
fill_below arr first (suc count) i h =
    fill_below (update arr first 0) (suc first) count i (omega arith)
    ∙ update_ne arr 0 (λ (e : first ≡ i). absurd (omega arith))

pub fill_within :
    (arr : Array ℕ) (first count i : ℕ) → first ≤ i → i < first + count → fill arr first count i ≡ 0
fill_within arr first zero i le lt = absurd (omega arith)
fill_within arr first (suc count) i le lt = elim (ℕ_discrete first i) [
  | yes e ↦
      subst (λ j. fill (update arr first 0) (suc first) count j ≡ 0) e
        (fill_below (update arr first 0) (suc first) count first (omega arith)
          ∙ update_self arr first 0)
  | no ne ↦ fill_within (update arr first 0) (suc first) count i (omega arith) (omega arith)
]

-- The guards from `top` on are in use, the others are free and NULL.
pub record IsValid (a : HpAllocator) : Type 0 where
  pub fits : a.top ≤ a.capacity
  pub small : a.capacity < 2 ^ 32
  pub null : (i : ℕ) → i < a.top → a.arr i ≡ 0

pub make_free_stack-IsValid : (a : HpAllocator) → a.capacity < 2 ^ 32 → IsValid (make_free_stack a)
make_free_stack-IsValid a small = record {
  fits = omega arith;
  small = small;
  null = λ i h. fill_within a.arr 0 a.capacity i (omega arith) (omega arith);
}

-- What a thread does with its guards: it stores to those in use, and each guard and each array of
-- guards lives in a scope.
pub data Uses : HpAllocator → HpAllocator → Type 0 where
  done : {a : HpAllocator} → Uses a a
  store :
      {a b : HpAllocator} (guard p : ℕ) → a.top ≤ guard → Uses (set_guard a guard p) b → Uses a b
  scope : {a b c : HpAllocator} → 0 < a.top → Uses (alloc a).1 b → Uses (free b) c → Uses a c
  array_scope :
      {a b c : HpAllocator} (count : ℕ)
      → count ≤ a.top
      → Uses (alloc_array count a).1 b
      → Uses (free_array count b) c
      → Uses a c

record Kept (a b : HpAllocator) : Type 0 where
  valid : IsValid b
  top : b.top ≡ a.top
  capacity : b.capacity ≡ a.capacity

alloc_array-IsValid : {a : HpAllocator} (count : ℕ) → IsValid a → IsValid (alloc_array count a).1
alloc_array-IsValid {a} count v = record {
  fits = omega (arith, v.fits);
  small = v.small;
  null = λ i h. v.null i (omega arith);
}

free-IsValid :
    {a : HpAllocator}
    → a.top < a.capacity
    → IsValid a
    → IsValid (free a) × ((free a).top ≡ a.top + 1)
free-IsValid {a} room v =
    let top : (a.top + 1) % 2 ^ 32 ≡ a.top + 1 = omega (arith, v.small) in
    (
      record {
        fits = omega arith;
        small = v.small;
        null = λ i h. elim (ℕ_discrete a.top i) [
          | yes e ↦ subst (λ j. update a.arr a.top 0 j ≡ 0) e (update_self a.arr a.top 0)
          | no ne ↦ update_ne a.arr 0 ne ∙ v.null i (omega arith)
        ];
      },
      top,
    )

free_array-IsValid :
    {a : HpAllocator} (count : ℕ)
    → a.top + count ≤ a.capacity
    → IsValid a
    → IsValid (free_array count a) × ((free_array count a).top ≡ a.top + count)
free_array-IsValid {a} count room v =
    let top : (a.top + count) % 2 ^ 32 ≡ a.top + count = omega (arith, v.small) in
    (
      record {
        fits = omega arith;
        small = v.small;
        null = λ i h. elim (dec_lt i a.top) [
          | yes low ↦ fill_below a.arr a.top count i low ∙ v.null i low
          | no high ↦ fill_within a.arr a.top count i (omega arith) (omega arith)
        ];
      },
      top,
    )

Uses-Kept : {a b : HpAllocator} → Uses a b → IsValid a → Kept a b
Uses-Kept done v = record { valid = v; top = refl; capacity = refl }
Uses-Kept {a} (store guard p used u) v =
    let stored : IsValid (set_guard a guard p) = record {
      fits = v.fits;
      small = v.small;
      null = λ i h. update_ne a.arr p (λ (e : guard ≡ i). absurd (omega arith)) ∙ v.null i h;
    } in
    let k = Uses-Kept u stored in record { valid = k.valid; top = k.top; capacity = k.capacity }
Uses-Kept {a} (scope {b = b} some u w) v =
    let inner = Uses-Kept u (alloc_array-IsValid 1 v) in
    let (freed, top) =
      free-IsValid (omega (arith, inner.top, inner.capacity, v.fits)) inner.valid in
    let outer = Uses-Kept w freed in
    record {
      valid = outer.valid;
      top = omega (arith, outer.top, top, inner.top);
      capacity = outer.capacity ∙ inner.capacity;
    }
Uses-Kept {a} (array_scope count some u w) v =
    let inner = Uses-Kept u (alloc_array-IsValid count v) in
    let (freed, top) =
      free_array-IsValid count (omega (arith, inner.top, inner.capacity, v.fits)) inner.valid in
    let outer = Uses-Kept w freed in
    record {
      valid = outer.valid;
      top = omega (arith, outer.top, top, inner.top);
      capacity = outer.capacity ∙ inner.capacity;
    }

-- A thread whose guards and arrays of guards live in nested scopes gets back all that it took, and
-- every guard that is free holds NULL, so that no scan takes it for one in use.
pub Uses-IsValid : {a b : HpAllocator} → Uses a b → IsValid a → IsValid b × (b.top ≡ a.top)
Uses-IsValid u v = let k = Uses-Kept u v in (k.valid, k.top)
