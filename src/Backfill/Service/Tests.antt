-- ===== src/Backfill/Service/Tests.antt =====
-- A run of backfill.service.ts with two windows at once, and its theorem there.
use ariai_exam.Prelude.{ℕ, ◌≡◌, refl, List, [], ◌∷◌, map, map_get, map_set}
use ariai_exam.Config.{btcusdt}
use ariai_exam.Backfill.GapMath.{TimeRange, ranges_overlap}
use ariai_exam.Backfill.Service.{active, begin_window}
use ariai_exam.Backfill.Service.InFlight.{WindowEvent, begins, step, run, new_engine}

abbrev range : ℕ → ℕ → TimeRange
range s e = record { start_ms = s; end_ms = e }

-- The second run finds the first's gap again, and another.
abbrev two_runs : List WindowEvent
two_runs = begins btcusdt (range 0 60 ∷ []) ∷ begins btcusdt (range 0 60 ∷ range 120 180 ∷ []) ∷ []

two_runs_claim :
    map (λ c. c.range) (active btcusdt (run two_runs new_engine)) ≡ range 0 60 ∷ range 120 180 ∷ []
unfolding run step begin_window ranges_overlap map_get map_set
two_runs_claim = refl
