-- ===== src/Backfill/Requests/Laws.antt =====
-- What the windows of the backfill are.
use ariai_exam.Prelude.{
  ℕ, ◌+◌, ◌-◌, ◌*◌, ◌≤◌, ◌<◌, ◌≡◌, arith, not, true, List, Option, none, some, Result, ok, err, ltb,
  leb, if_split,
}
use ariai_exam.Config.{Symbol, is_base_interval, base_interval_ms}
use ariai_exam.Backfill.GapMath.{TimeRange, floor_to_step, ceil_to_step}
use ariai_exam.Backfill.StartupPlan.{day_ms}
use ariai_exam.Backfill.Requests.{
  ManualBackfillRequest, ValidationError, check_times, to_candles, supports,
  validate_manual_request, manual_window, manual_max_range_days,
}

-- The window covers the times asked for, is not empty, and exceeds 30 days by less than two candles.
abbrev pub Covers : Option ℕ → Option ℕ → TimeRange → Type 0
Covers (some from) (some to) w =
    (w.start_ms ≤ from)
    × (to ≤ w.end_ms)
    × (w.start_ms < w.end_ms)
    × (w.end_ms - w.start_ms < manual_max_range_days * day_ms + 2 * base_interval_ms)
Covers _ _ w = ⊥

abbrev pub Accepted :
    List Symbol → ManualBackfillRequest → Result ValidationError TimeRange → Type 0
Accepted symbols request (err e) = Unit {0}
Accepted symbols request (ok w) =
    (supports symbols request.symbol ≡ true)
    × (is_base_interval request.interval ≡ true)
    × Covers request.from request.to w

floor-le :
    (t : ℕ)
    → (floor_to_step t base_interval_ms ≤ t)
      × (t < floor_to_step t base_interval_ms + base_interval_ms)
unfolding floor_to_step
floor-le t = (grind arith, grind arith)

ceil-le :
    (t : ℕ)
    → (t ≤ ceil_to_step t base_interval_ms)
      × (ceil_to_step t base_interval_ms < t + base_interval_ms)
unfolding ceil_to_step
ceil-le t = (grind arith, grind arith)

-- A manual request is accepted only for a symbol that is collected and for the base interval, and then its window
-- covers the times asked for, is not empty, and exceeds the limit of 30 days by less than two candles.
pub manual_window_covers :
    (symbols : List Symbol) (request : ManualBackfillRequest)
    → Accepted symbols request (manual_window symbols request)
unfolding manual_window validate_manual_request
manual_window_covers symbols request =
    if_split (λ (r : Result ValidationError TimeRange). Accepted symbols request (to_candles r))
      (not (supports symbols request.symbol)) (λ _. tt)
      (λ s.
        if_split (λ (r : Result ValidationError TimeRange). Accepted symbols request (to_candles r))
          (not (is_base_interval request.interval)) (λ _. tt)
          (λ b. times request.from request.to (ground (arith, s)) (ground (arith, b))))
  where
    times :
        (from to : Option ℕ)
        → supports symbols request.symbol ≡ true
        → is_base_interval request.interval ≡ true
        → Accepted symbols
            (record request { from = from; to = to })
            (to_candles (check_times from to))
    times none to s b = tt
    times (some from) none s b = tt
    times (some from) (some to) s b =
        if_split
          (λ (r : Result ValidationError TimeRange).
            Accepted symbols (record request { from = some from; to = some to }) (to_candles r))
          (leb to from) (λ _. tt)
          (λ early.
            if_split
              (λ (r : Result ValidationError TimeRange).
                Accepted symbols (record request { from = some from; to = some to }) (to_candles r))
              (ltb (manual_max_range_days * day_ms) (to - from)) (λ _. tt)
              (λ short.
                let f = floor-le from in
                let c = ceil-le to in
                let lt : from < to = ground (arith, early) in
                let le : to - from ≤ manual_max_range_days * day_ms = ground (arith, short) in
                (s, b, (f.0, c.0, omega (arith, f.0, c.0, lt), omega (arith, f.1, c.1, lt, le)))))
