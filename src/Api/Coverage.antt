-- ===== src/Api/Coverage.antt =====
-- backend/src/api/ops/coverage.util.ts: the coverage of a window by candles. A ratio is in ten-thousandths,
-- to which the code rounds it.
mod Tests
use ariai_exam.Prelude.{ℕ, ◌+◌, ◌-◌, ◌*◌, ◌/◌, List, map, sum_of, take, ◌==◌, if◌then◌else◌}
use ariai_exam.Config.{Symbol, base_interval_ms}

abbrev pub coverage_window_hours : ℕ
coverage_window_hours = 24

abbrev pub max_missing_ranges : ℕ
max_missing_ranges = 50

pub record CoverageWindow : Type 0 where
  pub from : ℕ
  pub to : ℕ
  pub expected : ℕ

pub record MissingGroup : Type 0 where
  pub from : ℕ
  pub to : ℕ
  pub minutes : ℕ

pub record MissingRange : Type 0 where
  pub from : ℕ
  pub to : ℕ

pub record CoverageReport : Type 0 where
  pub symbol : Symbol
  pub expected : ℕ
  pub actual : ℕ
  pub ratio : ℕ
  pub missing_ranges : List MissingRange

-- The hours are a whole number of candles, so that there is nothing to round.
unfoldable pub resolve_coverage_window : ℕ → ℕ → CoverageWindow
resolve_coverage_window now_ms hours =
    let aligned_end = now_ms / base_interval_ms * base_interval_ms in
    let expected' = hours * 3_600_000 / base_interval_ms in
    record {
      from = aligned_end - expected' * base_interval_ms;
      to = aligned_end;
      expected = expected';
    }

-- `roundRatio(actual / expected)`: the nearest ten-thousandth, the upper one of two that are as near.
abbrev pub round_ratio : ℕ → ℕ → ℕ
round_ratio actual expected = (2 * 10_000 * actual + expected) / (2 * expected)

unfoldable pub build_coverage_report :
    Symbol → CoverageWindow → List MissingGroup → ℕ → CoverageReport
build_coverage_report symbol window groups max_ranges =
    let missing_minutes = sum_of (λ group. group.minutes) groups in
    let actual = window.expected - missing_minutes in
    record {
      symbol = symbol;
      expected = window.expected;
      actual = actual;
      ratio = if window.expected == 0 then 10_000 else round_ratio actual window.expected;
      missing_ranges =
          map (λ group. record { from = group.from; to = group.to + base_interval_ms })
            (take max_ranges groups);
    }
