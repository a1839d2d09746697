-- ===== src/Backfill/GapMath/Expected.antt =====
-- `buildExpectedOpenTimes`: the loop lists exactly the grid points of the half-open range.
use ariai_exam.Prelude.{
  ℕ, zero, suc, ◌+◌, ◌*◌, ◌≤◌, ◌<◌, ◌≡◌, ◌∙◌, arith, List, [], ◌∷◌, ◌++◌, refl, ap, true, ◌==◌, has,
  ltb, Bool-cases, inl, inr, ◌↔◌,
}
use ariai_exam.Backfill.GapMath.{expected_from, build_expected_open_times}
use ariai_exam.Backfill.GapMath.Steps.{
  Aligned, ceil_to_step-Aligned, ceil_to_step_bounds, Aligned-lt, Aligned-add, ceil_to_step-le,
}

-- `n` grid points from `t` on.
abbrev pub steps : ℕ → ℕ → ℕ → List ℕ
steps step t zero = []
steps step t (suc n) = t ∷ steps step (t + step) n

pub steps_snoc : (step t n : ℕ) → steps step t (suc n) ≡ steps step t n ++ (t + n * step) ∷ []
steps_snoc step t zero = ap (λ k. k ∷ []) (omega arith)
steps_snoc step t (suc n) =
    ap (◌∷◌ t)
      (steps_snoc step (t + step) n ∙ ap (λ k. steps step (t + step) n ++ k ∷ []) (omega arith))

-- With enough fuel the loop gives the grid points below the bound.
pub expected_from-steps :
    (fuel n t to step : ℕ)
    → n ≤ fuel
    → to ≤ t + n * step
    → t + n * step < to + step
    → expected_from fuel t to step ≡ steps step t n
unfolding expected_from
expected_from-steps zero zero t to step f a b = refl
expected_from-steps zero (suc n) t to step f a b = absurd (omega arith)
expected_from-steps (suc fuel) zero t to step f a b = ground arith
expected_from-steps (suc fuel) (suc n) t to step f a b =
    ground (arith, expected_from-steps fuel n (t + step) to step)

module _ (step : ℕ) (pos : 0 < step) where
  has-expected_from_sound :
      (fuel t to x : ℕ)
      → Aligned step t
      → has x (expected_from fuel t to step) ≡ true
      → Aligned step x × (t ≤ x) × (x < to)
  unfolding expected_from
  has-expected_from_sound zero t to x al h = cc
  has-expected_from_sound (suc fuel) t to x al h = elim (Bool-cases (ltb t to)) [
    | inl lt ↦ elim (Bool-cases (t == x)) [
      | inl e ↦ let e' : t ≡ x = ground arith in (rw (← e') al, omega arith, ground arith)
      | inr ne ↦
          let (al', le, lt') =
            has-expected_from_sound fuel (t + step) to x (Aligned-add step t al) (ground arith) in
          (al', omega arith, lt')
    ]
    | inr ge ↦ ground arith
  ]

  has-expected_from_complete :
      (fuel t to x : ℕ)
      → to ≤ t + fuel
      → Aligned step t
      → Aligned step x
      → t ≤ x
      → x < to
      → has x (expected_from fuel t to step) ≡ true
  unfolding expected_from
  has-expected_from_complete zero t to x f al ax le lt = absurd (omega arith)
  has-expected_from_complete (suc fuel) t to x f al ax le lt = elim (Bool-cases (t == x)) [
    | inl e ↦ ground arith
    | inr ne ↦
        let t<x : t < x = ground arith in
        ground (
          arith,
          has-expected_from_complete fuel (t + step) to x (omega arith) (Aligned-add step t al) ax
              (Aligned-lt step t x al ax t<x) lt,
        )
  ]

  -- For a step of at least one, the listed times are exactly the grid points of [from, to).
  pub has-build_expected_open_times :
      (from to x : ℕ)
      → (has x (build_expected_open_times from to step) ≡ true)
        ↔ (Aligned step x × (from ≤ x) × (x < to))
  unfolding build_expected_open_times
  has-build_expected_open_times from to x = (
    λ h.
        let (al, le, lt) = has-expected_from_sound to _ to x (ceil_to_step-Aligned from step) h in
        (al, omega (arith, ceil_to_step_bounds from step pos), lt),
    λ (al, le, lt).
        has-expected_from_complete to _ to x (omega arith) (ceil_to_step-Aligned from step) al
          (ceil_to_step-le step from x pos al le) lt,
  )
