-- ===== src/Frontend/OpsThresholds.antt =====
-- frontend/src/lib/ops-thresholds.ts: the tone in which the dashboard shows the state of operations. A
-- ratio is in ten-thousandths, to which the backend rounds it. A lag is in milliseconds: `lagSeconds` is a
-- number of seconds that may have a fraction, and the thresholds of 5 and 15 seconds are written alike.
pub mod Laws
mod Tests
use ariai_exam.Prelude.{
  ℕ, zero, suc, ◌+◌, Bool, not, true, false, List, [], ◌∷◌, Option, none, some, ltb, leb, ◌==◌,
  if◌then◌else◌, filter, length, map, sum_of, min, max,
}

-- `StatusTone`
pub data StatusTone : Type 0 where
  ok_tone idle warn down : StatusTone

abbrev pub lag_warn_seconds : ℕ
lag_warn_seconds = 5_000

abbrev pub lag_critical_seconds : ℕ
lag_critical_seconds = 15_000

abbrev pub coverage_warn_ratio : ℕ
coverage_warn_ratio = 9_990

abbrev pub coverage_critical_ratio : ℕ
coverage_critical_ratio = 9_900

-- The tone of a lag on a connection.
abbrev pub known_lag_tone : ℕ → StatusTone
known_lag_tone lag =
    if leb lag_critical_seconds lag
    then down
    else if leb lag_warn_seconds lag
    then warn
    else ok_tone

abbrev pub lag_tone : Option ℕ → Bool → StatusTone
lag_tone lag false = down
lag_tone none true = idle
lag_tone (some lag) true = known_lag_tone lag

abbrev pub coverage_tone : ℕ → StatusTone
coverage_tone ratio =
    if ltb ratio coverage_critical_ratio
    then down
    else if ltb ratio coverage_warn_ratio
    then warn
    else ok_tone

-- What is read of a stream, its lag in milliseconds, and of the coverage of a symbol.
pub record StreamHealth : Type 0 where
  pub connected : Bool
  pub lag_seconds : Option ℕ

pub record CoverageEntry : Type 0 where
  pub ratio : ℕ
  pub missing_ranges : ℕ

pub record OpsHealth : Type 0 where
  pub streams : List StreamHealth
  pub coverage : List CoverageEntry
  pub failed_24h : ℕ

pub record HealthSummary : Type 0 where
  pub connected_streams : ℕ
  pub total_streams : ℕ
  pub worst_lag_seconds : Option ℕ
  pub worst_coverage_ratio : Option ℕ
  pub total_missing_ranges : ℕ
  pub tone : StatusTone

abbrev pub stream_tone : StreamHealth → StatusTone
stream_tone stream = lag_tone stream.lag_seconds stream.connected

-- The lags that are known.
abbrev pub lags_of : List StreamHealth → List ℕ
lags_of [] = []
lags_of (stream ∷ streams) = elim stream.lag_seconds [
  | none ↦ lags_of streams
  | some lag ↦ lag ∷ lags_of streams
]

-- `Math.max(...)` and `Math.min(...)`, of what is not empty.
abbrev pub greatest : List ℕ → Option ℕ
greatest [] = none
greatest (n ∷ ns) = elim (greatest ns) [ none ↦ some n | some m ↦ some (max n m) ]

abbrev pub least : List ℕ → Option ℕ
least [] = none
least (n ∷ ns) = elim (least ns) [ none ↦ some n | some m ↦ some (min n m) ]

abbrev pub tone_rank : StatusTone → ℕ
tone_rank ok_tone = 0
tone_rank idle = 1
tone_rank warn = 2
tone_rank down = 3

-- `reduce`, from the worst tone so far.
abbrev pub worst_from : StatusTone → List StatusTone → StatusTone
worst_from worst [] = worst
worst_from worst (tone ∷ tones) =
    worst_from (if ltb (tone_rank worst) (tone_rank tone) then tone else worst) tones

abbrev pub worst_tone : List StatusTone → StatusTone
worst_tone tones = worst_from ok_tone tones

abbrev pub tone_or_idle : (ℕ → StatusTone) → Option ℕ → StatusTone
tone_or_idle f none = idle
tone_or_idle f (some n) = f n

abbrev pub connected_count : List StreamHealth → ℕ
connected_count streams = length (filter (λ stream. stream.connected) streams)

unfoldable pub summarize_health : OpsHealth → HealthSummary
summarize_health health =
    let worst_lag = greatest (lags_of health.streams) in
    let worst_ratio = least (map (λ entry. entry.ratio) health.coverage) in
    record {
      connected_streams = connected_count health.streams;
      total_streams = length health.streams;
      worst_lag_seconds = worst_lag;
      worst_coverage_ratio = worst_ratio;
      total_missing_ranges = sum_of (λ entry. entry.missing_ranges) health.coverage;
      tone = worst_tone (
          (if connected_count health.streams == length health.streams then ok_tone else down)
          ∷ tone_or_idle (λ lag. lag_tone (some lag) true) worst_lag
          ∷ tone_or_idle coverage_tone worst_ratio
          ∷ (if ltb 0 health.failed_24h then warn else ok_tone)
          ∷ []);
    }
