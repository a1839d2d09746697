-- ===== src/Ingest/Service/Tests.antt =====
-- A run of ingest.service.ts with a failing database, and its theorem there.
use ariai_exam.Prelude.{
  ℕ, ◌≡◌, refl, true, false, List, [], ◌∷◌, none, map_get, map_set, map_delete,
}
use ariai_exam.Ingest.StateStore.{mark_trade, forget}
use ariai_exam.Ingest.Service.{
  Ingest, resting, interval, inserted, failed_after, handle_trade, do_flush, insert_done,
  state_done,
}
use ariai_exam.Ingest.Service.Conservation.{
  IngestEvent, trade_arrives, flush_asked, flush_starts, insert_ends, state_ends, step, run,
  arrivals, Accounted, trades_add_up,
}

abbrev quiet : Ingest ℕ ℕ
quiet = record {
  buffer = record { rows = []; max_rows = 2; hard_cap = 2 };
  health = [];
  state_store = record { dirty = []; next_object = 0 };
  connected = true;
  flush_queue = [];
  phase = resting;
  flush_in_flight = false;
  kline_queue = [];
  dropped_trades = 0;
  parse_errors = 0;
  last_flush_at = none;
  emitted = [];
  stored_klines = [];
  acknowledged = [];
  stored_trades = [];
}

-- Two rows fail once the first has been written, a third has arrived meanwhile, and the buffer holds two.
abbrev outage : List (IngestEvent ℕ ℕ)
outage =
    trade_arrives "s" 1 1 1 11
    ∷ trade_arrives "s" 2 2 2 12
    ∷ flush_starts
    ∷ trade_arrives "s" 3 3 3 13
    ∷ insert_ends 4 (failed_after 1)
    ∷ state_ends true
    ∷ flush_asked interval
    ∷ flush_starts
    ∷ insert_ends 5 inserted
    ∷ []

outage_runs :
    let s = run (λ _. true) outage quiet in
    (s.dropped_trades ≡ 1) × (s.acknowledged ≡ 12 ∷ 13 ∷ []) × (s.stored_trades ≡ 11 ∷ 12 ∷ 13 ∷ [])
unfolding run step map_get map_set map_delete handle_trade do_flush insert_done state_done
    mark_trade forget
outage_runs = (refl, refl, refl)

trades_add_up_example : Accounted (arrivals {K = ℕ} outage) (run (λ _. true) outage quiet)
trades_add_up_example = trades_add_up (λ _. true) quiet outage refl refl refl refl
