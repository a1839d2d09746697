-- ===== src/Backfill/GapMath/Merge.antt =====
-- `mergeIntoRanges`: what the ranges stand for, and how they lie.
use ariai_exam.Prelude.{
  ℕ, suc, ◌+◌, ◌*◌, ◌≤◌, ◌<◌, ◌≡◌, ◌∙◌, sym, arith, List, [], ◌∷◌, ◌++◌, refl, ap, false, ◌==◌,
  Bool-cases, inl, inr, some, append_assoc, append-nil, All, All-append,
}
use ariai_exam.Backfill.GapMath.{
  TimeRange, merge_loop, merge_into_ranges, build_expected_open_times,
}
use ariai_exam.Backfill.GapMath.Steps.{Aligned, Aligned-lt, Aligned-add, ceil_to_step-of_Aligned}
use ariai_exam.Backfill.GapMath.Expected.{steps, steps_snoc, expected_from-steps}

-- Strictly ascending times on the grid, none below `lo`.
abbrev pub OnGrid : ℕ → ℕ → List ℕ → Type 0
OnGrid step lo [] = Unit {0}
OnGrid step lo (t ∷ ts) = Aligned step t × (lo ≤ t) × OnGrid step (suc t) ts

-- The open times that a list of ranges stands for, by the source's own enumeration.
abbrev pub expand : ℕ → List TimeRange → List ℕ
expand step [] = []
expand step (r ∷ rs) = build_expected_open_times r.start_ms r.end_ms step ++ expand step rs

expand-append :
    (step : ℕ) (rs qs : List TimeRange) → expand step (rs ++ qs) ≡ expand step rs ++ expand step qs
expand-append step [] qs = refl
expand-append step (r ∷ rs) qs =
    ap (◌++◌ (build_expected_open_times r.start_ms r.end_ms step)) (expand-append step rs qs)
    ∙ sym (append_assoc (build_expected_open_times r.start_ms r.end_ms step) (expand step rs) _)

module _ (step : ℕ) (pos : 0 < step) where
  build-steps :
      (start prev n : ℕ)
      → Aligned step start
      → prev ≡ start + n * step
      → build_expected_open_times start (prev + step) step ≡ steps step start (suc n)
  unfolding build_expected_open_times
  build-steps start prev n al e = rw (ceil_to_step-of_Aligned start step pos al) (
      expected_from-steps (prev + step) (suc n) start (prev + step) step (grind arith) (omega arith)
        (omega arith))

  -- A range pushed for a run of `n + 1` candles stands for that run.
  expand-push :
      (ranges : List TimeRange) (start prev n : ℕ)
      → Aligned step start
      → prev ≡ start + n * step
      → expand step (ranges ++ record { start_ms = start; end_ms = prev + step } ∷ [])
        ≡ expand step ranges ++ steps step start (suc n)
  expand-push ranges start prev n al e =
      expand-append step ranges _
      ∙ ap (◌++◌ (expand step ranges)) (append-nil _ ∙ build-steps start prev n al e)

  one_longer :
      (xs ms : List ℕ) (start t n : ℕ)
      → t ≡ start + suc n * step
      → (xs ++ steps step start (suc (suc n))) ++ ms ≡ (xs ++ steps step start (suc n)) ++ t ∷ ms
  one_longer xs ms start t n e =
      ap (λ k. (xs ++ k) ++ ms)
        (steps_snoc step start (suc n) ∙ ap (λ k. steps step start (suc n) ++ k ∷ []) (sym e))
      ∙ ap (λ k. k ++ ms) (sym (append_assoc xs (steps step start (suc n)) (t ∷ [])))
      ∙ append_assoc (xs ++ steps step start (suc n)) (t ∷ []) ms

  expand-merge_loop :
      (ranges : List TimeRange) (start prev n : ℕ) (ms : List ℕ)
      → Aligned step start
      → prev ≡ start + n * step
      → OnGrid step (suc prev) ms
      → expand step (merge_loop step ranges (some start) prev ms)
        ≡ (expand step ranges ++ steps step start (suc n)) ++ ms
  unfolding merge_loop
  expand-merge_loop ranges start prev n [] al e g =
      expand-push ranges start prev n al e ∙ sym (append-nil _)
  expand-merge_loop ranges start prev n (t ∷ ms) al e g = elim (Bool-cases (t == prev + step)) [
    | inl joined ↦ rw joined (
        expand-merge_loop ranges start t (suc n) ms al (ground arith) g.2
        ∙ one_longer (expand step ranges) ms start t n (ground arith))
    | inr broken ↦ rw broken (
        expand-merge_loop (ranges ++ record { start_ms = start; end_ms = prev + step } ∷ []) t t 0
          ms g.0 (omega arith) g.2
        ∙ ap (λ k. (k ++ t ∷ []) ++ ms) (expand-push ranges start prev n al e)
        ∙ append_assoc (expand step ranges ++ steps step start (suc n)) (t ∷ []) ms)
  ]

  -- For missing candles on the grid of a step of at least one, in ascending order: the ranges that they
  -- are merged into stand for them, each once and in order.
  pub expand-merge_into_ranges :
      (missing : List ℕ)
      → OnGrid step 0 missing
      → expand step (merge_into_ranges missing step) ≡ missing
  unfolding merge_into_ranges merge_loop
  expand-merge_into_ranges [] g = refl
  expand-merge_into_ranges (t ∷ ms) g = expand-merge_loop [] t t 0 ms g.0 (omega arith) g.2

-- Consecutive ranges are nonempty, begin and end on the grid, and leave at least one candle between
-- them: no two of them could be one.
abbrev pub Separated : ℕ → ℕ → List TimeRange → Type 0
Separated step lo [] = Unit {0}
Separated step lo (r ∷ rs) =
    (lo ≤ r.start_ms)
    × (r.start_ms < r.end_ms)
    × Aligned step r.start_ms
    × Aligned step r.end_ms
    × Separated step (r.end_ms + step) rs

-- Every range ends at least a step before `t`.
abbrev EndsBefore : ℕ → ℕ → List TimeRange → Type 0
EndsBefore step t = All (λ r. r.end_ms + step ≤ t)

EndsBefore-le :
    (step s t : ℕ) (rs : List TimeRange) → s ≤ t → EndsBefore step s rs → EndsBefore step t rs
EndsBefore-le step s t [] h e = tt
EndsBefore-le step s t (r ∷ rs) h e = (omega arith, EndsBefore-le step s t rs h e.1)

Separated-push :
    (step lo : ℕ) (ranges : List TimeRange) (r : TimeRange)
    → Separated step lo ranges
    → EndsBefore step r.start_ms ranges
    → lo ≤ r.start_ms
    → r.start_ms < r.end_ms
    → Aligned step r.start_ms
    → Aligned step r.end_ms
    → Separated step lo (ranges ++ r ∷ [])
Separated-push step lo [] r s a l h x y = (l, h, x, y, tt)
Separated-push step lo (q ∷ ranges) r s a l h x y =
    (s.0, s.1, s.2, s.3, Separated-push step (q.end_ms + step) ranges r s.4 a.1 a.0 h x y)

module _ (step : ℕ) (pos : 0 < step) where
  -- A time that is on the grid past `prev`, and not the next one, leaves a candle between.
  Aligned-gap :
      (prev t : ℕ)
      → Aligned step prev
      → Aligned step t
      → suc prev ≤ t
      → (t == prev + step) ≡ false
      → prev + step + step ≤ t
  Aligned-gap prev t x y h broken =
      let next = Aligned-lt step prev t x y h in
      Aligned-lt step (prev + step) t (Aligned-add step prev x) y (ground arith)

  merge_loop-Separated :
      (ranges : List TimeRange) (start prev lo : ℕ) (ms : List ℕ)
      → Separated step lo ranges
      → EndsBefore step start ranges
      → lo ≤ start
      → start ≤ prev
      → Aligned step start
      → Aligned step prev
      → OnGrid step (suc prev) ms
      → Separated step lo (merge_loop step ranges (some start) prev ms)
  unfolding merge_loop
  merge_loop-Separated ranges start prev lo [] s b l h x y g =
      Separated-push step lo ranges (record { start_ms = start; end_ms = prev + step }) s b l
        (omega arith) x (Aligned-add step prev y)
  merge_loop-Separated ranges start prev lo (t ∷ ms) s b l h x y g =
      elim (Bool-cases (t == prev + step)) [
        | inl joined ↦
            rw joined (merge_loop-Separated ranges start t lo ms s b l (omega arith) x g.0 g.2)
        | inr broken ↦
            let r : TimeRange = record { start_ms = start; end_ms = prev + step } in
            let gap = Aligned-gap prev t y g.0 g.1 broken in
            rw broken (
              merge_loop-Separated (ranges ++ r ∷ []) t t lo ms
                (Separated-push step lo ranges r s b l (omega arith) x (Aligned-add step prev y))
                (All-append (λ q. q.end_ms + step ≤ t) ranges (r ∷ [])
                  (EndsBefore-le step start t ranges (omega arith) b) (gap, tt))
                (omega arith) (omega arith) g.0 g.0 g.2)
      ]

  -- Of missing candles on the grid of a step of at least one, in ascending order: merging leaves no two
  -- ranges that could be one, and none that is empty or off the grid.
  pub merge_into_ranges-Separated :
      (missing : List ℕ) → OnGrid step 0 missing → Separated step 0 (merge_into_ranges missing step)
  unfolding merge_into_ranges merge_loop
  merge_into_ranges-Separated [] g = tt
  merge_into_ranges-Separated (t ∷ ms) g =
      merge_loop-Separated [] t t 0 ms tt tt (omega arith) (omega arith) g.0 g.0 g.2
