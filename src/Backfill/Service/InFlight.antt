-- ===== src/Backfill/Service/InFlight.antt =====
-- The ranges that `inFlightRanges` tracks for a symbol, where runs of backfill.service.ts interleave.
use ariai_exam.Prelude.{◌≡◌, false, List, [], ◌∷◌, All}
use ariai_exam.Config.{Symbol}
use ariai_exam.Backfill.GapMath.{TimeRange, ranges_overlap}
use ariai_exam.Backfill.Service.{Claim, Engine, symbol_eq, begin_window, end_window}

-- What runs do to the engine: one claims the gaps that it has found, and gives its claims back.
pub data WindowEvent : Type 0 where
  begins : Symbol → List TimeRange → WindowEvent
  ends : Symbol → List Claim → WindowEvent

unfoldable pub step : WindowEvent → Engine → Engine
step (begins symbol gaps) e = (begin_window symbol gaps e).1
step (ends symbol claims) e = end_window symbol claims e

unfoldable pub run : List WindowEvent → Engine → Engine
run [] e = e
run (event ∷ history) e = run history (step event e)

abbrev pub Clear : TimeRange → TimeRange → Type 0
Clear a b = ranges_overlap a b ≡ false

-- No two ranges of a list overlap.
abbrev pub Apart : List TimeRange → Type 0
Apart [] = Unit {0}
Apart (r ∷ rs) = All (Clear r) rs × Apart rs

-- A run finds gaps that do not overlap one another.
abbrev pub FindsApart : List WindowEvent → Type 0
FindsApart [] = Unit {0}
FindsApart (begins symbol gaps ∷ history) = Apart gaps × FindsApart history
FindsApart (ends symbol claims ∷ history) = FindsApart history

abbrev pub ClearOf : Claim → Claim → Type 0
ClearOf a b = Clear a.range b.range

abbrev pub ClaimsApart : List Claim → Type 0
ClaimsApart [] = Unit {0}
ClaimsApart (c ∷ cs) = All (ClearOf c) cs × ClaimsApart cs

abbrev pub new_engine : Engine
new_engine = record { is_engine_busy = false; in_flight_ranges = []; next_object = 0 }
