-- ===== src/Backfill/Runner/Tests.antt =====
-- A job over an exchange that fails once, and over a table of one job.
use ariai_exam.Prelude.{
  Bool-cases, Option-cases, inl, inr, ℕ, zero, suc, ◌+◌, ◌≡◌, refl, arith, List, [], ◌∷◌, Option,
  none, some, Result, ok, err, codes, length, if◌then◌else◌, ◌==◌,
}
use ariai_exam.Prelude.Effects.Outcomes.{Ends}
use ariai_exam.Config.{btcusdt}
use ariai_exam.Binance.Klines.{BinanceKline}
use ariai_exam.Db.JobRepository.{succeeded, JobRow, new_row}
use ariai_exam.Backfill.Paginator.{paginate_klines, paginate_loop, consume_page, compute_max_pages}
use ariai_exam.Backfill.GapMath.{cap_end_to_closed_candles, floor_to_step}
use ariai_exam.Backfill.KlineMapper.{to_kline_insert}
use ariai_exam.Backfill.Requests.{JobSpec}
use ariai_exam.Backfill.Runner.{
  RunError, Ports, max_job_attempts, page_inserts, run_attempt, try_once, attempts_loop, run_job,
}
use ariai_exam.Backfill.Runner.Frame.{IsLawful, Updates}
use ariai_exam.Backfill.Runner.Laws.{Open, Recorded, run_job-Recorded}
use ariai_exam.Backfill.Runner.Inserts.{Verdict, page_inserts-Storable}

-- The calls of the exchange so far, the rows that were written, the time that was slept, and the row of job 7.
record World : Type 0 where
  calls : ℕ
  stored : ℕ
  slept : ℕ
  row : Option (JobRow (RunError ℕ))

abbrev candle : ℕ → BinanceKline
candle open_ms = record {
  open_time = open_ms;
  close_time = open_ms + 59_999;
  open_price = codes "1.0";
  high = codes "1.0";
  low = codes "1.0";
  close = codes "1.0";
  volume = codes "2.0";
  quote_volume = codes "2.0";
  trade_count = 3;
  taker_buy_base = codes "1.0";
  taker_buy_quote = codes "1.0";
}

abbrev answer : ℕ → ℕ → Result ℕ (List BinanceKline)
answer zero from = err 503
answer (suc n) from = ok (candle from ∷ candle (from + 60_000) ∷ [])

abbrev update_row :
    (JobRow (RunError ℕ) → JobRow (RunError ℕ))
    → Option (JobRow (RunError ℕ))
    → World
    → Result ℕ ℕ × World
update_row patch none w = (ok 0, w)
update_row patch (some row) w = (ok 1, record w { row = some (patch row) })

abbrev ports : Ports World ℕ
ports = record {
  get_klines =
      λ symbol interval from to n w. (answer w.calls from, record w { calls = w.calls + 1 });
  upsert_many = λ rows w. (ok (length rows), record w { stored = w.stored + length rows });
  update_job = λ id patch w. if id == 7 then update_row patch w.row w else (ok 0, w);
  now_ms = λ w. 1_000_000;
  sleep = λ ms w. record w { slept = w.slept + ms };
  emit = λ progress w. w;
}

abbrev row_of_job : World → ℕ → Option (JobRow (RunError ℕ))
row_of_job w id = if id == 7 then w.row else none

abbrev job : JobSpec
job = record { job_id = 7; symbol = btcusdt; range = record { start_ms = 0; end_ms = 120_000 } }

abbrev start : World
start = record { calls = 0; stored = 0; slept = 0; row = some new_row }

abbrev succeeded_row : JobRow (RunError ℕ)
succeeded_row = record { status = succeeded; rows_written = 2; attempts = 2; error = none }

runs_twice : run_job ports job start ≡ (
  ok (record { job = job; status = succeeded; rows_written = 2; error = none }),
  record { calls = 2; stored = 2; slept = 3_000; row = some succeeded_row },
)
unfolding floor_to_step run_job attempts_loop try_once run_attempt paginate_klines paginate_loop
    consume_page compute_max_pages page_inserts to_kline_insert cap_end_to_closed_candles
runs_twice = refl

one_job :
    (id : ℕ) (patch : JobRow (RunError ℕ) → JobRow (RunError ℕ)) (w : World)
    → Updates row_of_job id patch w (ports.update_job id patch w)
one_job id patch w = elim (Bool-cases (id == 7)) [
  | inl h ↦ elim (Option-cases w.row) [
    | inl e ↦ rw (h, e) (rw h refl, rw h refl)
    | inr (row, e) ↦ rw (h, e) (row, rw h refl, rw h refl)
  ]
  | inr h ↦ rw h (rw h refl, rw h refl)
]

ports-IsLawful : IsLawful ports row_of_job
ports-IsLawful = record {
  klines_keep = λ symbol interval from to n id w. refl;
  upsert_keeps = λ rows id w. refl;
  sleep_keeps = λ ms id w. refl;
  emit_keeps = λ progress id w. refl;
  updates = one_job;
}

run_job-Recorded_example :
    Ends
      (Recorded ports row_of_job ports-IsLawful job max_job_attempts)
      (λ e w. Open max_job_attempts (row_of_job w 7))
      (run_job ports job start)
run_job-Recorded_example = run_job-Recorded ports row_of_job ports-IsLawful job start refl

page_inserts-Storable_example :
    Verdict 1_000_000 (candle 60_000 ∷ []) (page_inserts job 1_000_000 (candle 60_000 ∷ []))
page_inserts-Storable_example =
    page_inserts-Storable job 1_000_000 (candle 60_000 ∷ []) (omega arith, tt)
