-- ===== src/Db/KlineRules/Completeness.antt =====
-- Which of two candles is more complete, where their volumes are numbers.
use ariai_exam.Prelude.{
  ℕ, max, ◌≡◌, ◌⊎◌, ◌∙◌, refl, ap, arith, Bool, true, not, ok, ltb, ◌==◌, if◌then◌else◌, Bool-cases,
  inl, inr,
}
use ariai_exam.Decimal.Numeric.{unsigned, decimal_pattern_test}
use ariai_exam.Decimal.Numeric.Laws.{
  fraction_length, number, order_of_ℤ, compare_numeric_strings_lem,
}
use ariai_exam.Db.Schema.{KlineInsert}
use ariai_exam.Db.KlineRules.{
  kline_conflict_key, count_of, is_at_least, is_at_least_as_complete, pick_more_complete_kline,
}

abbrev pub NumericVolume : KlineInsert → Type 0
NumericVolume row = decimal_pattern_test (unsigned row.volume) ≡ true

-- Enough places for both volumes.
abbrev pub places : KlineInsert → KlineInsert → ℕ
places a b = max (fraction_length a.volume) (fraction_length b.volume)

-- More trades, or as many and no less volume.
abbrev pub at_least : KlineInsert → KlineInsert → Bool
at_least candidate baseline =
    if not (count_of candidate == count_of baseline)
    then ltb (count_of baseline) (count_of candidate)
    else is_at_least (
        order_of_ℤ (number (places candidate baseline) candidate.volume)
          (number (places candidate baseline) baseline.volume))

is_at_least_as_complete_ok :
    (candidate baseline : KlineInsert)
    → NumericVolume candidate
    → NumericVolume baseline
    → is_at_least_as_complete candidate baseline ≡ ok (at_least candidate baseline)
unfolding is_at_least_as_complete
is_at_least_as_complete_ok c b hc hb =
    let compared =
      compare_numeric_strings_lem c.volume b.volume (places c b) hc hb (omega arith)
        (omega arith) in
    elim (Bool-cases (not (count_of c == count_of b))) [
      | inl h ↦ rw h refl
      | inr h ↦ rw (h, compared) refl
    ]

-- The choice that pickMoreCompleteKline makes.
abbrev pub more_complete : KlineInsert → KlineInsert → KlineInsert
more_complete current incoming = if at_least incoming current then incoming else current

pub more_complete_cases : (c i : KlineInsert) → (more_complete c i ≡ i) ⊎ (more_complete c i ≡ c)
more_complete_cases c i = elim (Bool-cases (at_least i c)) [
  | inl h ↦ inl (rw h refl)
  | inr h ↦ inr (rw h refl)
]

pub pick_more_complete_kline_ok :
    (c i : KlineInsert)
    → NumericVolume c
    → NumericVolume i
    → pick_more_complete_kline c i ≡ ok (more_complete c i)
unfolding pick_more_complete_kline
pick_more_complete_kline_ok c i hc hi = rw (is_at_least_as_complete_ok i c hi hc) refl

-- The choice stays with the conflict key.
pub more_complete_same_key :
    (c i : KlineInsert)
    → kline_conflict_key c ≡ kline_conflict_key i
    → kline_conflict_key (more_complete c i) ≡ kline_conflict_key i
more_complete_same_key c i h = elim (more_complete_cases c i) [
  | inl e ↦ ap kline_conflict_key e
  | inr e ↦ ap kline_conflict_key e ∙ h
]
