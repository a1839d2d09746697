-- ===== src/Backfill/Requests.antt =====
-- backend/src/backfill/backfill.service.ts: the windows that the backfill is asked for, and the jobs that it
-- creates. The repository of jobs gives the numbers of the jobs; what the runner makes of them is not seen here.
pub mod Laws
mod Tests
use ariai_exam.Prelude.{
  ℕ, suc, ◌+◌, ◌-◌, ◌*◌, Bool, not, true, false, List, [], ◌∷◌, ◌++◌, Option, none, some, Result,
  ok, err, ltb, leb, if◌then◌else◌, any,
}
use ariai_exam.Config.{Symbol, same_symbol, Interval, is_base_interval, base_interval_ms}
use ariai_exam.Backfill.GapMath.{TimeRange, floor_to_step, ceil_to_step, count_candles}
use ariai_exam.Backfill.StartupPlan.{day_ms}

abbrev pub hour_ms : ℕ
hour_ms = 3_600_000

abbrev pub gap_scan_grace_candles : ℕ
gap_scan_grace_candles = 1

abbrev pub manual_max_range_days : ℕ
manual_max_range_days = 30

-- A time that is not a valid `Date` is `none`.
pub record ManualBackfillRequest : Type 0 where
  pub symbol : Symbol
  pub interval : Interval
  pub from : Option ℕ
  pub to : Option ℕ

pub data ValidationError : Type 0 where
  unsupported_symbol unsupported_interval invalid_times from_not_before_to range_too_long :
      ValidationError

abbrev pub check_times : Option ℕ → Option ℕ → Result ValidationError TimeRange
check_times (some from_ms) (some to_ms) =
    if leb to_ms from_ms
    then err from_not_before_to
    else if ltb (manual_max_range_days * day_ms) (to_ms - from_ms)
    then err range_too_long
    else ok (record { start_ms = from_ms; end_ms = to_ms })
check_times _ _ = err invalid_times

abbrev pub supports : List Symbol → Symbol → Bool
supports symbols symbol = any (λ other. same_symbol other symbol) symbols

-- `validateManualRequest`, with the times that it has found to be valid.
unfoldable pub validate_manual_request :
    List Symbol → ManualBackfillRequest → Result ValidationError TimeRange
validate_manual_request symbols request =
    if not (supports symbols request.symbol)
    then err unsupported_symbol
    else if not (is_base_interval request.interval)
    then err unsupported_interval
    else check_times request.from request.to

-- The window of `runManual`: the candles that the request touches.
abbrev pub to_candles : Result ValidationError TimeRange → Result ValidationError TimeRange
to_candles (err e) = err e
to_candles (ok r) = ok (record {
  start_ms = floor_to_step r.start_ms base_interval_ms;
  end_ms = ceil_to_step r.end_ms base_interval_ms;
})

unfoldable pub manual_window :
    List Symbol → ManualBackfillRequest → Result ValidationError TimeRange
manual_window symbols request = to_candles (validate_manual_request symbols request)

-- The window of `recoverGaps`.
unfoldable pub gap_scan_window : ℕ → ℕ → TimeRange
gap_scan_window now_ms lookback_hours =
    let end = floor_to_step now_ms base_interval_ms - gap_scan_grace_candles * base_interval_ms in
    record { start_ms = end - lookback_hours * hour_ms; end_ms = end }

-- The window of `repairDowntimeWindow`, if there is one.
unfoldable pub repair_window : ℕ → ℕ → Option TimeRange
repair_window disconnected_at reconnected_at =
    let start = floor_to_step disconnected_at base_interval_ms in
    let end = floor_to_step reconnected_at base_interval_ms in
    if leb end start then none else some (record { start_ms = start; end_ms = end })

-- The gaps that `runWindow` takes under `force`.
abbrev pub forced_gaps : ℕ → ℕ → List TimeRange
forced_gaps start end = if ltb start end then record { start_ms = start; end_ms = end } ∷ [] else []

-- `handleStreamStatus`: only a connection that is back, of the candles of a symbol, after an interruption.
abbrev pub interruption :
    Bool → Option Symbol → Option ℕ → Option ℕ → ℕ → Option (Symbol × Option TimeRange)
interruption true (some symbol) (some disconnected_at) (some reconnected_at) at =
    some (symbol, repair_window disconnected_at reconnected_at)
interruption true (some symbol) (some disconnected_at) none at =
    some (symbol, repair_window disconnected_at at)
interruption _ _ _ _ at = none

-- A job and its candles; `interval` is left out, since `createJobs` gives each job the base interval.
pub record JobSpec : Type 0 where
  pub job_id : ℕ
  pub symbol : Symbol
  pub range : TimeRange

pub record GapDetected : Type 0 where
  pub symbol : Symbol
  pub range : TimeRange
  pub missing_count : ℕ

-- `createJobs`: for each range an event and a pending job; `next_id` is the next number of the repository.
unfoldable pub create_jobs : Symbol → ℕ → List TimeRange → List GapDetected × List JobSpec
create_jobs symbol' next_id [] = ([], [])
create_jobs symbol' next_id (range' ∷ ranges) =
    let (events, jobs) = create_jobs symbol' (suc next_id) ranges in
    (
      record {
        symbol = symbol';
        range = range';
        missing_count = count_candles range' base_interval_ms;
      }
          ∷ events,
      record { job_id = next_id; symbol = symbol'; range = range' } ∷ jobs,
    )
