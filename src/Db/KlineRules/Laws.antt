-- ===== src/Db/KlineRules/Laws.antt =====
-- What passes the gate in front of the table of candles.
use ariai_exam.Prelude.{
  text_eq, ℕ, suc, ◌<◌, ◌%◌, ◌≡◌, refl, arith, Bool, not, true, false, List, [], ◌∷◌, ◌++◌, Option,
  none, some, Result, ok, err, leb, ==_iff, if_split, All,
}
use ariai_exam.Db.Schema.{KlineInsert}
use ariai_exam.Db.KlineRules.{
  KlineIssue, not_aligned, close_not_after_open, interval_to_ms, is_aligned_to_interval, issue_if,
  time_issues, interval_issues, row_issues, issues_from, find_kline_issues, assert_valid_klines,
  refuse,
}

abbrev pub ValidTimes : ℕ → Option ℕ → Option ℕ → Type 0
ValidTimes ms (some open_ms) (some close_ms) = (open_ms % ms ≡ 0) × (open_ms < close_ms)
ValidTimes ms _ _ = ⊥

abbrev pub ValidInterval : Option ℕ → KlineInsert → Type 0
ValidInterval none row = ⊥
ValidInterval (some ms) row = ValidTimes ms row.open_time row.close_time

-- A symbol, a supported interval, an open time on its grid, and a close time after it.
abbrev pub Valid : KlineInsert → Type 0
Valid row = (text_eq row.symbol [] ≡ false) × ValidInterval (interval_to_ms row.interval) row

-- Either the rows are all valid or some issue is found, and never both.
abbrev pub Judged : List KlineIssue → Type 0 → Type 0
Judged [] V = V
Judged (issue ∷ issues) V = V → ⊥

time_issues-Judged :
    (i ms : ℕ) (open_ms close_ms : Option ℕ)
    → Judged (time_issues i ms open_ms close_ms) (ValidTimes ms open_ms close_ms)
time_issues-Judged i ms none close_ms = λ v. v
time_issues-Judged i ms (some open_ms) none = λ v. v
time_issues-Judged i ms (some open_ms) (some close_ms) =
    by_tests (is_aligned_to_interval open_ms ms) (leb close_ms open_ms) refl refl
  where
    by_tests :
        (a b : Bool)
        → is_aligned_to_interval open_ms ms ≡ a
        → leb close_ms open_ms ≡ b
        → Judged
            (issue_if (not a) i not_aligned ++ issue_if b i close_not_after_open)
            ((open_ms % ms ≡ 0) × (open_ms < close_ms))
    by_tests true true e f = λ v. ground (arith, f, v.1)
    by_tests true false e f = ((==_iff (open_ms % ms) 0).0 e, ground (arith, f))
    by_tests false b e f = λ v. ground (arith, e, (==_iff (open_ms % ms) 0).1 v.0)

interval_issues-Judged :
    (i : ℕ) (ms : Option ℕ) (row : KlineInsert)
    → Judged (interval_issues i ms row) (ValidInterval ms row)
interval_issues-Judged i none row = λ v. v
interval_issues-Judged i (some ms) row = time_issues-Judged i ms row.open_time row.close_time

row_issues-Judged : (i : ℕ) (row : KlineInsert) → Judged (row_issues i row) (Valid row)
row_issues-Judged i row =
    if_split (λ (issues : List KlineIssue). Judged issues (Valid row)) (text_eq row.symbol [])
      (λ e v. ground (arith, e, v.0))
      (λ e.
        weaken (interval_issues i (interval_to_ms row.interval) row) e
          (interval_issues-Judged i (interval_to_ms row.interval) row))
  where
    weaken :
        (issues : List KlineIssue)
        → text_eq row.symbol [] ≡ false
        → Judged issues (ValidInterval (interval_to_ms row.interval) row)
        → Judged issues (Valid row)
    weaken [] e j = (e, j)
    weaken (issue ∷ issues) e j = λ v. j v.1

Judged-append :
    (xs ys : List KlineIssue) (V W : Type 0) → Judged xs V → Judged ys W → Judged (xs ++ ys) (V × W)
Judged-append [] [] V W a b = (a, b)
Judged-append [] (y ∷ ys) V W a b = λ v. b v.1
Judged-append (x ∷ xs) ys V W a b = λ v. a v.0

issues_from-Judged :
    (i : ℕ) (rows : List KlineInsert) → Judged (issues_from i rows) (All Valid rows)
issues_from-Judged i [] = tt
issues_from-Judged i (row ∷ rows) =
    Judged-append (row_issues i row) (issues_from (suc i) rows) (Valid row) (All Valid rows)
      (row_issues-Judged i row) (issues_from-Judged (suc i) rows)

-- What the gate gives says whether the rows are valid.
abbrev pub Gate : Result (List KlineIssue) (Unit {0}) → Type 0 → Type 0
Gate (ok _) V = V
Gate (err issues) V = V → ⊥

-- The gate lets a batch through exactly when each of its rows is valid: with a symbol, a supported interval,
-- an open time on the grid of the interval, and a close time after it.
pub assert_valid_klines_decides :
    (rows : List KlineInsert) → Gate (assert_valid_klines rows) (All Valid rows)
unfolding assert_valid_klines find_kline_issues
assert_valid_klines_decides rows = gate (issues_from 0 rows) (issues_from-Judged 0 rows)
  where
    gate :
        (issues : List KlineIssue)
        → Judged issues (All Valid rows)
        → Gate (refuse issues) (All Valid rows)
    gate [] j = j
    gate (issue ∷ issues) j = j
