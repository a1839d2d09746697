-- ===== src/Backfill/Requests/Tests.antt =====
-- Windows of backfill.service.ts.
use ariai_exam.Prelude.{◌≡◌, refl, [], ◌∷◌, some, ok}
use ariai_exam.Config.{btcusdt, ethusdt, m1}
use ariai_exam.Backfill.GapMath.{floor_to_step, ceil_to_step}
use ariai_exam.Backfill.Requests.{
  ManualBackfillRequest, manual_window, validate_manual_request, repair_window, gap_scan_window,
}
use ariai_exam.Backfill.Requests.Laws.{Accepted, manual_window_covers}

abbrev asked : ManualBackfillRequest
asked = record { symbol = btcusdt; interval = m1; from = some 90_000; to = some 150_001 }

asked_runs :
    manual_window (btcusdt ∷ ethusdt ∷ []) asked
    ≡ ok (record { start_ms = 60_000; end_ms = 180_000 })
unfolding manual_window validate_manual_request floor_to_step ceil_to_step
asked_runs = refl

repair_runs : repair_window 119_999 240_001 ≡ some (record { start_ms = 60_000; end_ms = 240_000 })
unfolding repair_window floor_to_step
repair_runs = refl

scan_runs : gap_scan_window 7_320_001 1 ≡ record { start_ms = 3_660_000; end_ms = 7_260_000 }
unfolding gap_scan_window floor_to_step
scan_runs = refl

manual_window_covers_example : Accepted (btcusdt ∷ []) asked (manual_window (btcusdt ∷ []) asked)
manual_window_covers_example = manual_window_covers (btcusdt ∷ []) asked
