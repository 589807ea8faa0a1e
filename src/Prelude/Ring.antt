-- ===== src/Prelude/Ring.antt =====
-- Indices that go round: one subtraction instead of `%`, for sums below twice the modulus.
use Prim.Native.Nat.{ℕ, suc, ◌+◌, ◌-◌, ◌%◌, ◌≤◌, ◌<◌}
use mathlib.Core.Path.{◌≡◌, ◌∙◌}
use mathlib.Core.Logic.{◌≢◌, ◌⊎◌, inl, inr}
use native.Mathlib.Decide.{dec_lt}
use native.Mathlib.Nat.{mod-eq_of_lt, mod-eq-sub-mod}
use native.Mathlib.Omega.{arith}

pub mod-cases : (c n : ℕ) → n < c + c → ((n < c) × (n % c ≡ n)) ⊎ ((c ≤ n) × (n % c ≡ n - c))
mod-cases c n h = elim (dec_lt n c) [
  | yes p ↦ inl (p, mod-eq_of_lt p)
  | no p ↦ inr (
    omega arith,
    mod-eq-sub-mod {n = n} {m = c} (omega arith) ∙ mod-eq_of_lt {n = n - c} {m = c} (omega arith),
  )
]

-- how many steps lead from `h` to `t`, going up and round at `c`
abbrev pub ahead : ℕ → ℕ → ℕ → ℕ
ahead c h t = (t + c - h) % c

module _ {c h t : ℕ} (hh : h < c) (ht : t < c) where
  pub ahead-lt : ahead c h t < c
  ahead-lt = omega (arith, mod-cases c (t + c - h) (omega arith))

  pub add-ahead : (h + ahead c h t) % c ≡ t
  add-ahead = omega (
    arith,
    mod-cases c (t + c - h) (omega arith),
    mod-cases c (h + ahead c h t) (omega (arith, ahead-lt)),
  )

  pub ahead-step : (t + 1) % c ≢ h → ahead c h ((t + 1) % c) ≡ suc (ahead c h t)
  ahead-step ne = omega (
    arith,
    mod-cases c (t + 1) (omega arith),
    mod-cases c (t + c - h) (omega arith),
    mod-cases c ((t + 1) % c + c - h) (omega (arith, mod-cases c (t + 1) (omega arith))),
  )

  pub ahead-full : (t + 1) % c ≡ h → suc (ahead c h t) ≡ c
  ahead-full e =
      omega (arith, mod-cases c (t + 1) (omega arith), mod-cases c (t + c - h) (omega arith))

  pub ahead-pop : h ≢ t → ahead c h t ≡ suc (ahead c ((h + 1) % c) t)
  ahead-pop ne = omega (
    arith,
    mod-cases c (h + 1) (omega arith),
    mod-cases c (t + c - h) (omega arith),
    mod-cases c (t + c - (h + 1) % c) (omega (arith, mod-cases c (h + 1) (omega arith))),
  )

pub ahead_self : {c h : ℕ} → h < c → ahead c h h ≡ 0
ahead_self {c} {h} hh = omega (arith, mod-cases c (h + c - h) (omega arith))
