-- ===== src/Backfill/GapMath/Detect.antt =====
-- `GapDetector.detectGaps` past its guard: the candles that its ranges stand for.
use ariai_exam.Prelude.{
  ℕ, zero, suc, ◌+◌, ◌≤◌, ◌<◌, ◌≡◌, ◌∙◌, sym, arith, List, [], ◌∷◌, refl, ap, Bool, true, false,
  not, ◌&&◌, ◌==◌, has, ltb, leb, Bool-cases, inl, inr, ◌↔◌, filter, le→leb,
}
use ariai_exam.Backfill.GapMath.{
  build_expected_open_times, ceil_to_step, floor_to_step, expected_from, find_missing_open_times,
  cap_end_to_closed_candles, missing_ranges,
}
use ariai_exam.Backfill.GapMath.Steps.{
  Aligned, Aligned-lt, Aligned-add, ceil_to_step-Aligned, floor_to_step-Aligned,
  floor_to_step_bounds, ceil_to_step_bounds, ceil_to_step-le,
}
use ariai_exam.Backfill.GapMath.Expected.{has-build_expected_open_times}
use ariai_exam.Backfill.GapMath.Merge.{
  OnGrid, expand, expand-merge_into_ranges, Separated, merge_into_ranges-Separated,
}

OnGrid-le : (step lo hi : ℕ) (ts : List ℕ) → lo ≤ hi → OnGrid step hi ts → OnGrid step lo ts
OnGrid-le step lo hi [] h g = tt
OnGrid-le step lo hi (t ∷ ts) h g = (g.0, omega arith, g.2)

OnGrid-filter :
    (step lo : ℕ) (p : ℕ → Bool) (ts : List ℕ) → OnGrid step lo ts → OnGrid step lo (filter p ts)
OnGrid-filter step lo p [] g = tt
OnGrid-filter step lo p (t ∷ ts) g = elim (Bool-cases (p t)) [
  | inl yes' ↦ rw yes' (g.0, g.1, OnGrid-filter step (suc t) p ts g.2)
  | inr no' ↦ rw no' (OnGrid-filter step lo p ts (OnGrid-le step lo (suc t) ts (omega arith) g.2))
]

OnGrid-expected_from :
    (step fuel t to : ℕ) → 0 < step → Aligned step t → OnGrid step t (expected_from fuel t to step)
unfolding expected_from
OnGrid-expected_from step zero t to pos al = tt
OnGrid-expected_from step (suc fuel) t to pos al = elim (Bool-cases (ltb t to)) [
  | inl more ↦ rw more (
    al,
    omega arith,
    OnGrid-le step (suc t) (t + step) _ (omega arith)
        (OnGrid-expected_from step fuel (t + step) to pos (Aligned-add step t al)),
  )
  | inr done ↦ rw done tt
]

has-filter : (p : ℕ → Bool) (x : ℕ) (ts : List ℕ) → has x (filter p ts) ≡ (has x ts && p x)
has-filter p x [] = refl
has-filter p x (t ∷ ts) = elim (Bool-cases (t == x)) [
  | inl same ↦ let e : t ≡ x = ground arith in ground (arith, ap p e, has-filter p x ts)
  | inr other ↦ ground (arith, has-filter p x ts)
]

-- The times that the detector hands to `mergeIntoRanges`.
abbrev missing_between : ℕ → List ℕ → ℕ → ℕ → List ℕ
missing_between step existing from to =
    find_missing_open_times (build_expected_open_times from to step) existing

-- What the repository answers is, within its bounds, what the table holds.
abbrev pub Answers : (ℕ → ℕ → List ℕ) → List ℕ → Type 0
Answers stored db = (lo hi x : ℕ) → lo ≤ x → x ≤ hi → has x (stored lo hi) ≡ has x db

module _ (step : ℕ) (pos : 0 < step) where
  missing-OnGrid :
      (existing : List ℕ) (from to : ℕ) → OnGrid step 0 (missing_between step existing from to)
  unfolding find_missing_open_times build_expected_open_times
  missing-OnGrid existing from to =
      OnGrid-filter step 0 (λ t. not (has t existing)) _
        (OnGrid-le step 0 (ceil_to_step from step) _ (omega arith)
          (OnGrid-expected_from step to _ to pos (ceil_to_step-Aligned from step)))

  -- A candle that starts before the last boundary has closed, and only such a one.
  closed_iff : (x now : ℕ) → Aligned step x → (x < floor_to_step now step) ↔ (x + step ≤ now)
  closed_iff x now al =
      let b = floor_to_step_bounds now step pos in
      (
        λ h. omega (arith, b.0, Aligned-lt step x _ al (floor_to_step-Aligned now step) h),
        λ h. omega (arith, b.1),
      )

  has-missing :
      (existing : List ℕ) (from to x : ℕ)
      → (has x (missing_between step existing from to) ≡ true)
        ↔ (Aligned step x × (from ≤ x) × (x < to) × (has x existing ≡ false))
  unfolding find_missing_open_times
  has-missing existing from to x =
      let f = has-filter (λ t. not (has t existing)) x (build_expected_open_times from to step) in
      let b = has-build_expected_open_times step pos from to x in
      (
        λ h. let g = b.0 (ground (arith, f)) in (g.0, g.1, g.2, ground (arith, f)),
        λ h. let g = b.1 (h.0, h.1, h.2) in ground (arith, f, g),
      )

  -- The ranges, taken apart into candles, are the missing times.
  expand-missing_ranges :
      (stored : ℕ → ℕ → List ℕ) (from to now : ℕ)
      → let lo = ceil_to_step from step in
        let hi = cap_end_to_closed_candles to now step in
        (ltb lo hi ≡ true)
        → expand step (missing_ranges step stored from to now)
          ≡ missing_between step (stored lo hi) lo hi
  unfolding missing_ranges
  expand-missing_ranges stored from to now h =
      let lo = ceil_to_step from step in
      let hi = cap_end_to_closed_candles to now step in
      let e : leb hi lo ≡ false = ground arith in
      rw e (expand-merge_into_ranges step pos _ (missing-OnGrid (stored lo hi) lo hi))

  missing_ranges_empty :
      (stored : ℕ → ℕ → List ℕ) (from to now : ℕ)
      → cap_end_to_closed_candles to now step ≤ ceil_to_step from step
      → missing_ranges step stored from to now ≡ []
  unfolding missing_ranges
  missing_ranges_empty stored from to now h = rw (le→leb _ _ h)

  -- For a step of at least one and every answer of the repository that lists the stored open times within its bounds, a time
  -- lies in a detected gap exactly when it is on the grid, in [from, to), its candle has closed by
  -- `now`, and the table does not hold it.
  pub missing_ranges_exact :
      (stored : ℕ → ℕ → List ℕ) (db : List ℕ) (from to now x : ℕ)
      → Answers stored db
      → (has x (expand step (missing_ranges step stored from to now)) ≡ true)
        ↔ (Aligned step x × (from ≤ x) × (x < to) × (x + step ≤ now) × (has x db ≡ false))
  unfolding cap_end_to_closed_candles
  missing_ranges_exact stored db from to now x ans = elim (Bool-cases (ltb lo hi)) [
    | inl some' ↦ rw (expand-missing_ranges stored from to now some') (
      λ h.
          let g = (has-missing (stored lo hi) lo hi x).0 h in
          (
            g.0,
            omega (arith, g.1, low),
            omega (arith, g.2),
            (closed_iff x now g.0).0 (omega (arith, g.2)),
            sym (ans lo hi x g.1 (omega (arith, g.2))) ∙ g.3,
          ),
      λ h.
          let le = ceil_to_step-le step from x pos h.0 h.1 in
          let lt : x < hi = omega (arith, (closed_iff x now h.0).1 h.3) in
          (has-missing (stored lo hi) lo hi x).1 (h.0, le, lt, ans lo hi x le (omega arith) ∙ h.4),
    )
    | inr none' ↦ rw (nothing none') (
      λ h. cc,
      λ h. absurd (
          omega (
            arith,
            ceil_to_step-le step from x pos h.0 h.1,
            (closed_iff x now h.0).1 h.3,
            h.2,
            no_room none',
          )),
    )
  ]
    where
      lo : ℕ
      lo = ceil_to_step from step

      hi : ℕ
      hi = cap_end_to_closed_candles to now step

      low : from ≤ lo
      low = (ceil_to_step_bounds from step pos).0

      no_room : ltb lo hi ≡ false → hi ≤ lo
      no_room h = ground arith

      nothing : ltb lo hi ≡ false → missing_ranges step stored from to now ≡ []
      nothing h = missing_ranges_empty stored from to now (no_room h)

  -- For a step of at least one, the detected gaps are nonempty, on the grid, ascending and apart.
  pub missing_ranges-Separated :
      (stored : ℕ → ℕ → List ℕ) (from to now : ℕ)
      → Separated step 0 (missing_ranges step stored from to now)
  unfolding missing_ranges
  missing_ranges-Separated stored from to now = elim (Bool-cases (leb hi lo)) [
    | inl e ↦ rw e tt
    | inr e ↦ rw e (merge_into_ranges-Separated step pos _ (missing-OnGrid (stored lo hi) lo hi))
  ]
    where
      lo : ℕ
      lo = ceil_to_step from step

      hi : ℕ
      hi = cap_end_to_closed_candles to now step
