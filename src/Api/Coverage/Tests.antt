-- ===== src/Api/Coverage/Tests.antt =====
-- The coverage of a day that lacks three candles.
use ariai_exam.Prelude.{◌≡◌, refl, List, [], ◌∷◌}
use ariai_exam.Config.{btcusdt}
use ariai_exam.Api.Coverage.{MissingGroup, resolve_coverage_window, build_coverage_report}

abbrev groups : List MissingGroup
groups =
    record { from = 86_400_000; to = 86_460_000; minutes = 2 }
    ∷ record { from = 90_000_000; to = 90_000_000; minutes = 1 }
    ∷ []

day_runs :
    build_coverage_report btcusdt (resolve_coverage_window 172_812_345 24) groups 1 ≡ record {
      symbol = btcusdt;
      expected = 1_440;
      actual = 1_437;
      ratio = 9_979;
      missing_ranges = record { from = 86_400_000; to = 86_520_000 } ∷ [];
    }
unfolding build_coverage_report resolve_coverage_window
day_runs = refl
