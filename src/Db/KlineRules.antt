-- ===== src/Db/KlineRules.antt =====
-- backend/src/db/kline-rules.ts: which candles may be written, and which of two is more complete.
pub mod Laws
pub mod Keys
pub mod Completeness
mod Tests
use ariai_exam.Prelude.{
  Text, codes, text_eq, ◌>>=◌, ltb, ℕ, suc, ◌+◌, ◌*◌, ◌%◌, Bool, not, true, false, List, [], ◌∷◌,
  ◌++◌, Option, none, some, Result, ok, err, leb, ◌==◌, if◌then◌else◌,
}
use ariai_exam.Config.{base_interval_ms}
use ariai_exam.Decimal.Digits.{to_digits}
use ariai_exam.Decimal.Numeric.{Order, less, equal, greater, NumericError, compare_numeric_strings}
use ariai_exam.Db.Schema.{KlineInsert}
use ariai_exam.Db.Dedupe.{key_separator}

pub data IssueReason : Type 0 where
  symbol_is_empty unsupported_interval invalid_times not_aligned close_not_after_open : IssueReason

pub record KlineIssue : Type 0 where
  pub index : ℕ
  pub reason : IssueReason

-- `INTERVAL_MS`, on the intervals that `isSupportedInterval` accepts.
unfoldable pub interval_to_ms : Text → Option ℕ
interval_to_ms interval' =
    if text_eq interval' (codes "1m")
    then some base_interval_ms
    else if text_eq interval' (codes "5m")
    then some (base_interval_ms * 5)
    else if text_eq interval' (codes "15m")
    then some (base_interval_ms * 15)
    else if text_eq interval' (codes "1h")
    then some (base_interval_ms * 60)
    else none

abbrev pub is_aligned_to_interval : ℕ → ℕ → Bool
is_aligned_to_interval open_ms interval_ms = (open_ms % interval_ms) == 0

abbrev pub issue_if : Bool → ℕ → IssueReason → List KlineIssue
issue_if true i reason' = record { index = i; reason = reason' } ∷ []
issue_if false i reason' = []

-- The issues of a row whose interval and times are known; the first ones end the search.
abbrev pub time_issues : ℕ → ℕ → Option ℕ → Option ℕ → List KlineIssue
time_issues i ms (some open_ms) (some close_ms) =
    issue_if (not (is_aligned_to_interval open_ms ms)) i not_aligned
    ++ issue_if (leb close_ms open_ms) i close_not_after_open
time_issues i ms open_ms close_ms = issue_if true i invalid_times

abbrev pub interval_issues : ℕ → Option ℕ → KlineInsert → List KlineIssue
interval_issues i none row = issue_if true i unsupported_interval
interval_issues i (some ms) row = time_issues i ms row.open_time row.close_time

abbrev pub row_issues : ℕ → KlineInsert → List KlineIssue
row_issues i row =
    if text_eq row.symbol []
    then issue_if true i symbol_is_empty
    else interval_issues i (interval_to_ms row.interval) row

-- `rows.forEach`, from an index on.
abbrev pub issues_from : ℕ → List KlineInsert → List KlineIssue
issues_from i [] = []
issues_from i (row ∷ rows) = row_issues i row ++ issues_from (suc i) rows

unfoldable pub find_kline_issues : List KlineInsert → List KlineIssue
find_kline_issues rows = issues_from 0 rows

abbrev pub refuse : List KlineIssue → Result (List KlineIssue) (Unit {0})
refuse [] = ok tt
refuse (issue ∷ issues) = err (issue ∷ issues)

-- It throws the issues; the text of the error lists the first five.
unfoldable pub assert_valid_klines : List KlineInsert → Result (List KlineIssue) (Unit {0})
assert_valid_klines rows = refuse (find_kline_issues rows)

-- `String(row.openTime.getTime())`
abbrev pub time_text : Option ℕ → Text
time_text none = codes "NaN"
time_text (some open_ms) = to_digits open_ms

-- `joinKey` of the three parts.
abbrev pub kline_conflict_key : KlineInsert → Text
kline_conflict_key row =
    row.symbol ++ (key_separator ∷ (row.interval ++ (key_separator ∷ time_text row.open_time)))

-- `tradeCount ?? 0`
abbrev pub count_of : KlineInsert → ℕ
count_of row = elim row.trade_count [ none ↦ 0 | some n ↦ n ]

-- `>= 0` on a result of compareNumericStrings
abbrev pub is_at_least : Order → Bool
is_at_least less = false
is_at_least equal = true
is_at_least greater = true

-- It throws where the volumes have to be compared and one of them is no number.
unfoldable pub is_at_least_as_complete : KlineInsert → KlineInsert → Result NumericError Bool
is_at_least_as_complete candidate baseline =
    if not (count_of candidate == count_of baseline)
    then ok (ltb (count_of baseline) (count_of candidate))
    else (compare_numeric_strings candidate.volume baseline.volume >>= λ o. ok (is_at_least o))

unfoldable pub pick_more_complete_kline :
    KlineInsert → KlineInsert → Result NumericError KlineInsert
pick_more_complete_kline current incoming =
    is_at_least_as_complete incoming current >>= λ better. ok (if better then incoming else current)
