-- ===== src/Backfill/GapMath/Steps.antt =====
-- Boundaries of the step grid: `floorToStep` and `ceilToStep` as the nearest grid points.
use native.Mathlib.Nat.{mul-le-mul_right}
use native.Mathlib.Decide.{dec_lt}
use ariai_exam.Prelude.{ℕ, ◌+◌, ◌-◌, ◌*◌, ◌/◌, ◌≤◌, ◌<◌, ◌≡◌, arith, refl}
use ariai_exam.Backfill.GapMath.{floor_to_step, ceil_to_step}

-- A time on the grid of multiples of the step.
abbrev pub Aligned : ℕ → ℕ → Type 0
Aligned step t = (q : ℕ) × (t ≡ q * step)

pub floor_to_step-Aligned : (t step : ℕ) → Aligned step (floor_to_step t step)
unfolding floor_to_step
floor_to_step-Aligned t step = (t / step, refl)

pub ceil_to_step-Aligned : (t step : ℕ) → Aligned step (ceil_to_step t step)
unfolding ceil_to_step
ceil_to_step-Aligned t step = ((t + (step - 1)) / step, refl)

pub floor_to_step_bounds :
    (t step : ℕ) → 0 < step → (floor_to_step t step ≤ t) × (t < floor_to_step t step + step)
unfolding floor_to_step
floor_to_step_bounds t step h = grind arith

pub ceil_to_step_bounds :
    (t step : ℕ) → 0 < step → (t ≤ ceil_to_step t step) × (ceil_to_step t step < t + step)
unfolding ceil_to_step
ceil_to_step_bounds t step h = grind arith

-- Two grid points with fewer than a step between them are one.
pub Aligned-lt : (step a b : ℕ) → Aligned step a → Aligned step b → a < b → a + step ≤ b
Aligned-lt step a b (p, e) (q, f) h = elim (dec_lt p q) [
  | yes lt ↦ omega (arith, e, f, mul-le-mul_right step lt)
  | no ge ↦ omega (arith, e, f, mul-le-mul_right {m = q} {n = p} step (omega arith))
]

pub ceil_to_step-of_Aligned : (t step : ℕ) → 0 < step → Aligned step t → ceil_to_step t step ≡ t
ceil_to_step-of_Aligned t step h al =
    let b = ceil_to_step_bounds t step h in
    elim (dec_lt t (ceil_to_step t step)) [
      | yes lt ↦
          absurd (omega (arith, b.1, Aligned-lt step t _ al (ceil_to_step-Aligned t step) lt))
      | no ge ↦ omega (arith, b.0)
    ]

pub Aligned-add : (step t : ℕ) → Aligned step t → Aligned step (t + step)
Aligned-add step t (q, e) = (q + 1, omega arith)

-- The ceiling is the least grid point not below.
pub ceil_to_step-le : (step t x : ℕ) → 0 < step → Aligned step x → t ≤ x → ceil_to_step t step ≤ x
ceil_to_step-le step t x pos al le =
    let b = ceil_to_step_bounds t step pos in
    elim (dec_lt x (ceil_to_step t step)) [
      | yes lt ↦
          absurd (omega (arith, b.1, Aligned-lt step x _ al (ceil_to_step-Aligned t step) lt))
      | no ge ↦ omega arith
    ]
