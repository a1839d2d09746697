-- ===== src/Frontend/OpsThresholds/Tests.antt =====
-- Headlines of the dashboard, and the theorems at concrete inputs.
use ariai_exam.Prelude.{◌≡◌, ◌↔◌, refl, true, false, List, [], ◌∷◌, none, some}
use ariai_exam.Config.{btcusdt}
use ariai_exam.Api.Coverage.{
  MissingGroup, coverage_window_hours, resolve_coverage_window, build_coverage_report,
}
use ariai_exam.Frontend.OpsThresholds.{ok_tone, down, OpsHealth, coverage_tone, summarize_health}
use ariai_exam.Frontend.OpsThresholds.Laws.{
  tone_of_missing, coverage_tone_of_day, AllWell, summarize_health_ok_iff,
}

abbrev fine : OpsHealth
fine = record {
  streams =
      record { connected = true; lag_seconds = some 2_500 }
      ∷ record { connected = true; lag_seconds = none }
      ∷ [];
  coverage = record { ratio = 9_993; missing_ranges = 1 } ∷ [];
  failed_24h = 0;
}

abbrev cut_off : OpsHealth
cut_off = record fine { streams = record { connected = false; lag_seconds = some 2_500 } ∷ [] }

fine_runs : (summarize_health fine).tone ≡ ok_tone
unfolding summarize_health
fine_runs = refl

cut_off_runs : (summarize_health cut_off).tone ≡ down
unfolding summarize_health
cut_off_runs = refl

abbrev one_missing : List MissingGroup
one_missing = record { from = 86_400_000; to = 86_400_000; minutes = 1 } ∷ []

coverage_tone_of_day_example :
    coverage_tone
      (build_coverage_report btcusdt
        (resolve_coverage_window 172_800_000 coverage_window_hours)
        one_missing
        50).ratio
    ≡ tone_of_missing 1
coverage_tone_of_day_example = coverage_tone_of_day btcusdt 172_800_000 one_missing 50

summarize_health_ok_iff_example : ((summarize_health fine).tone ≡ ok_tone) ↔ AllWell fine
summarize_health_ok_iff_example = summarize_health_ok_iff fine
