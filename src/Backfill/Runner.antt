-- ===== src/Backfill/Runner.antt =====
-- backend/src/backfill/backfill-runner.ts: one job, from its start to what is recorded of it. The
-- exchange, the tables, the clock and the listeners of events are parameters over any state.
pub mod Frame
pub mod Laws
pub mod Inserts
mod Tests
use ariai_exam.Prelude.{
  ℕ, zero, suc, ◌+◌, ◌*◌, Bool, not, true, false, List, [], ◌∷◌, Option, none, some, Text, Result,
  ok, err, ◌>>=◌ as ◌>>>◌, ltb, if◌then◌else◌, filter,
}
use ariai_exam.Prelude.Effects.{Eff, pure, throw, and_then, ◌>>=◌, ◌>>◌}
use ariai_exam.Config.{symbol_name, interval_name, m1, base_interval_ms}
use ariai_exam.Binance.Klines.{BinanceKline, KlineError}
use ariai_exam.Db.Schema.{KlineInsert}
use ariai_exam.Db.JobRepository.{
  BackfillStatus, running, succeeded, failed, JobRow, JobError, mark_running, mark_succeeded,
  mark_failed,
}
use ariai_exam.Backfill.GapMath.{cap_end_to_closed_candles}
use ariai_exam.Backfill.Paginator.{
  PaginateStopReason, completed, empty_page, cursor_stalled, max_pages_exceeded, PaginateResult,
  PaginateOptions, compute_max_pages, paginate_klines,
}
use ariai_exam.Backfill.KlineMapper.{is_closed_candle, to_kline_insert}
use ariai_exam.Backfill.Requests.{JobSpec}

abbrev pub klines_page_limit : ℕ
klines_page_limit = 1_000

abbrev pub max_job_attempts : ℕ
max_job_attempts = 3

abbrev pub retry_base_delay_ms : ℕ
retry_base_delay_ms = 3_000

-- What a run can fail with; its text is what `toErrorMessage` makes of it.
pub data RunError {ℓ} (E : Type ℓ) : Type ℓ where
  unknown_cause : RunError E
  job_table : JobError E → RunError E
  exchange : E → RunError E
  kline_table : E → RunError E
  not_aligned : KlineError → RunError E
  abnormal_stop : PaginateStopReason → ℕ → RunError E

-- `BackfillProgressPayload`
pub record Progress {ℓ} (E : Type ℓ) : Type ℓ where
  pub job : JobSpec
  pub status : BackfillStatus
  pub rows_written : ℕ
  pub error : Option (RunError E)

-- `BackfillJobResult`; the status is `succeeded` or `failed`.
pub record JobResult {ℓ} (E : Type ℓ) : Type ℓ where
  pub job : JobSpec
  pub status : BackfillStatus
  pub rows_written : ℕ
  pub error : Option (RunError E)

-- What the runner works on.
pub record Ports {ℓ κ} (S : Type ℓ) (E : Type κ) : Type (ℓ ⊔ κ) where
  pub get_klines : Text → Text → ℕ → ℕ → ℕ → Eff S E (List BinanceKline)
  pub upsert_many : List KlineInsert → Eff S E ℕ
  pub update_job : ℕ → (JobRow (RunError E) → JobRow (RunError E)) → Eff S E ℕ
  pub now_ms : S → ℕ
  pub sleep : ℕ → S → S
  pub emit : Progress E → S → S

-- The state during an attempt: the variable `written` beside the rest.
pub record Attempt {ℓ} (S : Type ℓ) : Type ℓ where
  pub world : S
  pub written : ℕ

-- A throw of an inner call, in the terms of the run.
abbrev pub raise_as {ℓ κ μ ν} :
    {S : Type ℓ} {E : Type κ} {F : Type μ} {A : Type ν} → (E → F) → Result E A × S → Result F A × S
raise_as f (ok a, s) = (ok a, s)
raise_as f (err e, s) = (err (f e), s)

abbrev pub in_attempt {ℓ κ μ} :
    {S : Type ℓ} {F : Type κ} {A : Type μ} → ℕ → Result F A × S → Result F A × Attempt S
in_attempt written (r, s) = (r, record { world = s; written = written })

-- `map` with a function that may throw.
abbrev pub map_all {ℓ κ μ} :
    {A : Type ℓ} {B : Type κ} {F : Type μ} → (A → Result F B) → List A → Result F (List B)
map_all f [] = ok []
map_all f (x ∷ xs) = f x >>> λ y. map_all f xs >>> λ ys. ok (y ∷ ys)

-- The rows of a page that are stored: of the candles that have closed.
unfoldable pub page_inserts : JobSpec → ℕ → List BinanceKline → Result KlineError (List KlineInsert)
page_inserts job now_ms rows =
    map_all
      (λ kline. to_kline_insert (symbol_name job.symbol) (interval_name m1) kline base_interval_ms)
      (filter (λ kline. is_closed_candle kline base_interval_ms now_ms) rows)

-- A stop of the pagination after which nothing can be said of the data.
abbrev pub is_abnormal : PaginateStopReason → Bool
is_abnormal completed = false
is_abnormal empty_page = false
is_abnormal cursor_stalled = true
is_abnormal max_pages_exceeded = true

module _ {ℓ κ} {S : Type ℓ} {E : Type κ} (ports : Ports S E) where
  open ports use {get_klines, upsert_many, update_job, now_ms, sleep, emit}

  -- `emitBackfillProgress`
  abbrev pub emit_progress :
      JobSpec → BackfillStatus → ℕ → Option (RunError E) → Eff S (RunError E) (Unit {0})
  emit_progress job status' rows error' s =
      (ok tt, emit (record { job = job; status = status'; rows_written = rows; error = error' }) s)

  abbrev pub store_page : Result KlineError (List KlineInsert) → Eff S (RunError E) ℕ
  store_page (err e) s = (err (not_aligned e), s)
  store_page (ok []) s = (ok 0, s)
  store_page (ok (row ∷ rows)) s = raise_as kline_table (upsert_many (row ∷ rows) s)

  abbrev pub upsert_page : JobSpec → List BinanceKline → Eff S (RunError E) ℕ
  upsert_page job rows s = store_page (page_inserts job (now_ms s) rows) s

  -- `onPage`
  abbrev pub on_page : JobSpec → List BinanceKline → Eff (Attempt S) (RunError E) (Unit {0})
  on_page job rows a =
      and_then (in_attempt a.written (upsert_page job rows a.world)) λ n a'.
        in_attempt (a'.written + n) (emit_progress job running (a'.written + n) none a'.world)

  abbrev pub fetch_page : JobSpec → ℕ → ℕ → ℕ → Eff (Attempt S) (RunError E) (List BinanceKline)
  fetch_page job from to limit a = in_attempt a.written (
      raise_as exchange
        (get_klines (symbol_name job.symbol) (interval_name m1) from to limit a.world))

  abbrev pub run_options : JobSpec → ℕ → PaginateOptions (Attempt S) (RunError E) BinanceKline
  run_options job end = record {
    start_ms = job.range.start_ms;
    end_ms = end;
    step_ms = base_interval_ms;
    page_limit = klines_page_limit;
    max_pages = compute_max_pages job.range.start_ms end base_interval_ms klines_page_limit;
    fetch_page = fetch_page job;
    on_page = on_page job;
    get_open_time_ms = λ kline. some kline.open_time;
  }

  -- What is made of the end of the pagination: the number of rows, or a throw.
  abbrev pub check_stop : Result (RunError E) PaginateResult × Attempt S → Result (RunError E) ℕ × S
  check_stop (err e, a) = (err e, a.world)
  check_stop (ok result, a) =
      if is_abnormal result.stop_reason
      then (err (abnormal_stop result.stop_reason result.next_cursor_ms), a.world)
      else (ok a.written, a.world)

  -- The part of an attempt after the first progress, from the time that the clock shows.
  abbrev pub fetch_range : JobSpec → Eff S (RunError E) ℕ
  fetch_range job s =
      let end = cap_end_to_closed_candles job.range.end_ms (now_ms s) base_interval_ms in
      check_stop (paginate_klines (run_options job end) (record { world = s; written = 0 }))

  unfoldable pub run_attempt : JobSpec → Eff S (RunError E) ℕ
  run_attempt job =
      (λ s. raise_as job_table (mark_running update_job job.job_id s))
      >> emit_progress job running 0 none
      >> fetch_range job

  -- The `try` block: an attempt and the record of its success.
  unfoldable pub try_once : JobSpec → Eff S (RunError E) ℕ
  try_once job = run_attempt job >>= λ rows.
      (λ s. raise_as job_table (mark_succeeded update_job job.job_id rows s))
      >> emit_progress job succeeded rows none
      >> pure rows

  -- What follows the last attempt.
  unfoldable pub give_up : JobSpec → RunError E → Eff S (RunError E) (JobResult E)
  give_up job last_error =
      (λ s. raise_as job_table (mark_failed update_job job.job_id last_error s))
      >> emit_progress job failed 0 (some last_error)
      >> pure (record { job = job; status = failed; rows_written = 0; error = some last_error })

  -- The end of the `catch` block.
  abbrev pub pause : ℕ → S → S
  pause attempt s =
      if ltb attempt max_job_attempts then sleep (retry_base_delay_ms * attempt) s else s

  -- What follows the `try` block: the `catch` block and the next round, or the result.
  abbrev pub after_attempt :
      (RunError E → Eff S (RunError E) (JobResult E))
      → JobSpec
      → ℕ
      → Result (RunError E) ℕ × S
      → Result (RunError E) (JobResult E) × S
  after_attempt continue job attempt (ok rows, s) =
      (ok (record { job = job; status = succeeded; rows_written = rows; error = none }), s)
  after_attempt continue job attempt (err e, s) = continue e (pause attempt s)

  -- The `for` loop, with `left` rounds to go.
  unfoldable pub attempts_loop : JobSpec → ℕ → ℕ → RunError E → Eff S (RunError E) (JobResult E)
  attempts_loop job zero attempt last_error s = give_up job last_error s
  attempts_loop job (suc left) attempt last_error s =
      after_attempt (λ e. attempts_loop job left (attempt + 1) e) job attempt (try_once job s)

  unfoldable pub run_job : JobSpec → Eff S (RunError E) (JobResult E)
  run_job job = attempts_loop job max_job_attempts 1 unknown_cause
