-- ===== src/Backfill/GapMath/Ranges.antt =====
-- `countCandles` and `rangesOverlap`: what the two numbers of a range say of its candles.
use ariai_exam.Prelude.{
  ℕ, zero, suc, ◌+◌, ◌-◌, ◌*◌, ◌/◌, ◌≤◌, ◌<◌, ◌≡◌, ◌∙◌, arith, [], refl, ap, true, ◌↔◌, length, max,
}
use native.Mathlib.Nat.{mul-le-mul_right, mul-le-mul_left}
use native.Mathlib.Decide.{dec_lt}
use ariai_exam.Backfill.GapMath.{
  TimeRange, build_expected_open_times, expected_from, count_candles, ranges_overlap,
}
use ariai_exam.Backfill.GapMath.Steps.{Aligned, ceil_to_step-of_Aligned}
use ariai_exam.Backfill.GapMath.Expected.{steps, expected_from-steps}

length-steps : (step t n : ℕ) → length (steps step t n) ≡ n
length-steps step t zero = refl
length-steps step t (suc n) = ap suc (length-steps step (t + step) n)

ceil_div_bounds :
    (d step : ℕ)
    → 0 < step
    → (d ≤ (d + (step - 1)) / step * step) × ((d + (step - 1)) / step * step < d + step)
ceil_div_bounds d step pos = (grind arith, grind arith)

le_of_ceil : (d q step : ℕ) → 0 < step → q * step < d + step → q ≤ d
le_of_ceil d q step pos h = elim (dec_lt d q) [
  | yes lt ↦
      absurd
        (omega (arith, mul-le-mul_right {m = suc d} {n = q} step lt, mul-le-mul_left {m = 1} d pos))
  | no ge ↦ omega arith
]

expected_from_empty : (fuel t to step : ℕ) → to ≤ t → expected_from fuel t to step ≡ []
unfolding expected_from
expected_from_empty zero t to step h = refl
expected_from_empty (suc fuel) t to step h = ground arith

-- For a step of at least one: the count of a range that starts on its grid is the number of candles that
-- it enumerates.
pub length-build_expected_open_times :
    (r : TimeRange) (step : ℕ)
    → 0 < step
    → Aligned step r.start_ms
    → length (build_expected_open_times r.start_ms r.end_ms step) ≡ count_candles r step
unfolding build_expected_open_times count_candles
length-build_expected_open_times r step pos al =
    rw (ceil_to_step-of_Aligned r.start_ms step pos al) (elim (dec_lt r.start_ms r.end_ms) [
      | yes lt ↦
          let d = r.end_ms - r.start_ms in
          let q = (d + (step - 1)) / step in
          let b = ceil_div_bounds d step pos in
          let few = le_of_ceil d q step pos b.1 in
          ap length (
            expected_from-steps r.end_ms q r.start_ms r.end_ms step (omega arith)
              (omega (arith, b.0)) (omega (arith, b.1)))
          ∙ length-steps step r.start_ms q
      | no ge ↦
          let b = ceil_div_bounds (r.end_ms - r.start_ms) step pos in
          ap length (expected_from_empty r.end_ms r.start_ms r.end_ms step (omega arith))
          ∙ omega (arith, le_of_ceil (r.end_ms - r.start_ms) _ step pos b.1)
    ])

-- Of two nonempty ranges: they overlap exactly when some time lies in both.
pub ranges_overlap_iff :
    (a b : TimeRange)
    → a.start_ms < a.end_ms
    → b.start_ms < b.end_ms
    → (ranges_overlap a b ≡ true)
      ↔ ((t : ℕ) × (a.start_ms ≤ t) × (t < a.end_ms) × (b.start_ms ≤ t) × (t < b.end_ms))
unfolding ranges_overlap
ranges_overlap_iff a b ha hb = (
  λ h. (max a.start_ms b.start_ms, ground arith, ground arith, ground arith, ground arith),
  λ h. ground arith,
)
