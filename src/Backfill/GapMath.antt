-- ===== src/Backfill/GapMath.antt =====
-- backend/src/backfill/gap-math.ts and the computation of gap-detector.ts. A time is its epoch
-- milliseconds. `/` on ℕ is the floor of the quotient, so a ceiling is written by it.
pub mod Steps
pub mod Expected
pub mod Merge
pub mod Detect
pub mod Ranges
mod Tests
use ariai_exam.Prelude.{
  ℕ, zero, suc, ◌+◌, ◌-◌, ◌*◌, ◌/◌, min, Bool, ◌&&◌, not, List, [], ◌∷◌, ◌++◌, Option, none, some,
  ltb, leb, ◌==◌, if◌then◌else◌, filter, has, Result, ok, err,
}
use ariai_exam.Config.{Interval, is_base_interval, base_interval_ms}

-- `TimeRange` of backfill.types.ts: the half-open range [start_ms, end_ms).
pub record TimeRange : Type 0 where
  pub start_ms : ℕ
  pub end_ms : ℕ

unfoldable pub floor_to_step : ℕ → ℕ → ℕ
floor_to_step ts_ms step_ms = ts_ms / step_ms * step_ms

unfoldable pub ceil_to_step : ℕ → ℕ → ℕ
ceil_to_step ts_ms step_ms = (ts_ms + (step_ms - 1)) / step_ms * step_ms

-- The `for` loop from `t` on. Each round moves `t` up, so `to_ms` rounds are enough.
pub expected_from : ℕ → ℕ → ℕ → ℕ → List ℕ
expected_from zero t to_ms step_ms = []
expected_from (suc fuel) t to_ms step_ms =
    let rest = expected_from fuel (t + step_ms) to_ms step_ms in
    if ltb t to_ms then t ∷ rest else []

pub build_expected_open_times : ℕ → ℕ → ℕ → List ℕ
build_expected_open_times from_ms to_ms step_ms =
    expected_from to_ms (ceil_to_step from_ms step_ms) to_ms step_ms

pub find_missing_open_times : List ℕ → List ℕ → List ℕ
find_missing_open_times expected existing =
    filter (λ open_time. not (has open_time existing)) expected

-- The loop of `mergeIntoRanges` over its variables, with the last push behind it.
pub merge_loop : ℕ → List TimeRange → Option ℕ → ℕ → List ℕ → List TimeRange
merge_loop step_ms ranges none prev [] = ranges
merge_loop step_ms ranges (some start) prev [] =
    ranges ++ record { start_ms = start; end_ms = prev + step_ms } ∷ []
merge_loop step_ms ranges none prev (open_time ∷ missing) =
    merge_loop step_ms ranges (some open_time) open_time missing
merge_loop step_ms ranges (some start) prev (open_time ∷ missing) =
    let broken = not (open_time == prev + step_ms) in
    merge_loop step_ms
      (if broken
        then ranges ++ record { start_ms = start; end_ms = prev + step_ms } ∷ []
        else ranges)
      (some (if broken then open_time else start)) open_time missing

pub merge_into_ranges : List ℕ → ℕ → List TimeRange
merge_into_ranges missing step_ms = merge_loop step_ms [] none 0 missing

unfoldable pub cap_end_to_closed_candles : ℕ → ℕ → ℕ → ℕ
cap_end_to_closed_candles end_ms now_ms step_ms = min end_ms (floor_to_step now_ms step_ms)

-- `Math.max(0, …)` is the subtraction of ℕ.
unfoldable pub count_candles : TimeRange → ℕ → ℕ
count_candles range step_ms = (range.end_ms - range.start_ms + (step_ms - 1)) / step_ms

unfoldable pub ranges_overlap : TimeRange → TimeRange → Bool
ranges_overlap a b = ltb a.start_ms b.end_ms && ltb b.start_ms a.end_ms

-- `GapDetector.detectGaps` past its guard: `stored from to` is what
-- `klineRepository.findExistingOpenTimes` answers for the two bounds.
pub missing_ranges : ℕ → (ℕ → ℕ → List ℕ) → ℕ → ℕ → ℕ → List TimeRange
missing_ranges step_ms stored from to now_ms =
    let from_ms = ceil_to_step from step_ms in
    let to_ms = cap_end_to_closed_candles to now_ms step_ms in
    let existing = stored from_ms to_ms in
    let expected = build_expected_open_times from_ms to_ms step_ms in
    let missing = find_missing_open_times expected existing in
    if leb to_ms from_ms then [] else merge_into_ranges missing step_ms

-- The whole method: only the stored interval is accepted.
unfoldable pub detect_gaps :
    Interval → (ℕ → ℕ → List ℕ) → ℕ → ℕ → ℕ → Result Interval (List TimeRange)
detect_gaps interval stored from to now_ms =
    if is_base_interval interval
    then ok (missing_ranges base_interval_ms stored from to now_ms)
    else err interval
