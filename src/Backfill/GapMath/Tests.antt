-- ===== src/Backfill/GapMath/Tests.antt =====
-- Runs of gap-math.ts on small inputs, and its theorems at concrete ones.
use ariai_exam.Prelude.{
  ℕ, ◌+◌, ◌≤◌, ◌<◌, ◌≡◌, refl, arith, List, [], ◌∷◌, true, false, ◌↔◌, has, length, ok, err,
}
use ariai_exam.Config.{m1, m5}
use ariai_exam.Backfill.GapMath.{
  TimeRange, build_expected_open_times, merge_into_ranges, missing_ranges, detect_gaps,
  count_candles, ranges_overlap, merge_loop, expected_from, cap_end_to_closed_candles,
  floor_to_step, ceil_to_step, find_missing_open_times,
}
use ariai_exam.Backfill.GapMath.Steps.{Aligned}
use ariai_exam.Backfill.GapMath.Expected.{has-build_expected_open_times}
use ariai_exam.Backfill.GapMath.Merge.{
  OnGrid, expand, Separated, expand-merge_into_ranges, merge_into_ranges-Separated,
}
use ariai_exam.Backfill.GapMath.Detect.{missing_ranges_exact, missing_ranges-Separated}
use ariai_exam.Backfill.GapMath.Ranges.{length-build_expected_open_times, ranges_overlap_iff}

abbrev range : ℕ → ℕ → TimeRange
range s e = record { start_ms = s; end_ms = e }

-- Candles at 10, 20 and 50 are missing.
abbrev missing : List ℕ
missing = 10 ∷ 20 ∷ 50 ∷ []

abbrev table : List ℕ
table = 30 ∷ 40 ∷ 60 ∷ []

missing-OnGrid : OnGrid 10 0 missing
missing-OnGrid = ((1, refl), omega arith, ((2, refl), omega arith, ((5, refl), omega arith, tt)))

merge_runs : merge_into_ranges missing 10 ≡ range 10 30 ∷ range 50 60 ∷ []
unfolding merge_into_ranges merge_loop
merge_runs = refl

detect_runs :
    detect_gaps m1 (λ lo hi. 120_000 ∷ []) 1 400_000 300_001
    ≡ ok (range 60_000 120_000 ∷ range 180_000 300_000 ∷ [])
unfolding detect_gaps missing_ranges cap_end_to_closed_candles floor_to_step ceil_to_step
    merge_into_ranges merge_loop find_missing_open_times build_expected_open_times expected_from
detect_runs = refl

detect_refuses : detect_gaps m5 (λ lo hi. []) 1 400_000 300_001 ≡ err m5
unfolding detect_gaps
detect_refuses = refl

has-build_expected_open_times_example :
    (has 20 (build_expected_open_times 5 40 10) ≡ true) ↔ (Aligned 10 20 × (5 ≤ 20) × (20 < 40))
has-build_expected_open_times_example = has-build_expected_open_times 10 (omega arith) 5 40 20

expand-merge_into_ranges_example : expand 10 (merge_into_ranges missing 10) ≡ missing
expand-merge_into_ranges_example = expand-merge_into_ranges 10 (omega arith) missing missing-OnGrid

merge_into_ranges-Separated_example : Separated 10 0 (merge_into_ranges missing 10)
merge_into_ranges-Separated_example =
    merge_into_ranges-Separated 10 (omega arith) missing missing-OnGrid

missing_ranges_exact_example :
    (has 50 (expand 10 (missing_ranges 10 (λ lo hi. table) 5 90 77)) ≡ true)
    ↔ (Aligned 10 50 × (5 ≤ 50) × (50 < 90) × (50 + 10 ≤ 77) × (has 50 table ≡ false))
missing_ranges_exact_example =
    missing_ranges_exact 10 (omega arith) (λ lo hi. table) table 5 90 77 50 (λ lo hi x a b. refl)

missing_ranges-Separated_example : Separated 10 0 (missing_ranges 10 (λ lo hi. table) 5 90 77)
missing_ranges-Separated_example =
    missing_ranges-Separated 10 (omega arith) (λ lo hi. table) 5 90 77

length-build_expected_open_times_example :
    length (build_expected_open_times 20 55 10) ≡ count_candles (range 20 55) 10
length-build_expected_open_times_example =
    length-build_expected_open_times (range 20 55) 10 (omega arith) (2, refl)

ranges_overlap_iff_example :
    (ranges_overlap (range 10 30) (range 20 40) ≡ true)
    ↔ ((t : ℕ) × (10 ≤ t) × (t < 30) × (20 ≤ t) × (t < 40))
ranges_overlap_iff_example =
    ranges_overlap_iff (range 10 30) (range 20 40) (omega arith) (omega arith)
