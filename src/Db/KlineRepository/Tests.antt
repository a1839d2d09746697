-- ===== src/Db/KlineRepository/Tests.antt =====
-- A table of candles as a function of the conflict key, and upserts into it.
use ariai_exam.Prelude.{
  arith, ℕ, ◌≡◌, refl, Bool, false, List, [], ◌∷◌, Option, none, some, Result, ok, err, Text, codes,
  text_key, All, length,
}
use ariai_exam.Decimal.Numeric.{
  NumericError, Order, parse_decimal, compare_magnitude, compare_numeric_strings,
}
use ariai_exam.Db.Schema.{KlineInsert}
use ariai_exam.Db.Dedupe.Laws.{find_key}
use ariai_exam.Db.KlineRules.{
  kline_conflict_key, is_at_least, is_at_least_as_complete, pick_more_complete_kline,
  interval_to_ms,
}
use ariai_exam.Db.KlineRules.Laws.{Valid}
use ariai_exam.Db.KlineRules.Keys.{kline_conflict_key-injective}
use ariai_exam.Db.KlineRepository.{KlineTable, on_conflict, upsert_many}
use ariai_exam.Db.KlineRepository.Statements.{best}
use ariai_exam.Db.KlineRepository.Refinement.{
  Writable, written, IsLawful, KeepsUp, upsert_many_refines, upsert_many-KeepsUp,
}

abbrev Stored : Type 0
Stored = Text → Option KlineInsert

abbrev at_least_or_false : Result NumericError Order → Bool
at_least_or_false (ok o) = is_at_least o
at_least_or_false (err e) = false

abbrev table : KlineTable Stored ℕ
table = record {
  volume_ge = λ v w. at_least_or_false (compare_numeric_strings v w);
  insert =
      λ f rows s. (ok (length rows), λ k. written f (find_key kline_conflict_key k rows) (s k));
  row_at = λ s k. s k;
}

-- The columns of this table take any row.
abbrev Any : KlineInsert → Type 0
Any row = Unit {0}

table-IsLawful : IsLawful Any table
table-IsLawful f rows s takes fits d =
    (length rows, λ k. written f (find_key kline_conflict_key k rows) (s k), refl, λ k. refl)

-- The same candle twice, the second time with more trades, and the next one.
abbrev early : KlineInsert
early = record {
  symbol = codes "BTCUSDT";
  interval = codes "1m";
  open_time = some 60_000;
  close_time = some 119_999;
  open_price = codes "1.0";
  high = codes "2.0";
  low = codes "0.5";
  close = codes "1.5";
  volume = codes "10.5";
  quote_volume = codes "15.0";
  trade_count = some 4;
  taker_buy_base = none;
  taker_buy_quote = none;
  source = codes "rest";
}

abbrev late : KlineInsert
late = record early { trade_count = some 5; volume = codes "11.25" }

abbrev next : KlineInsert
next = record early { open_time = some 120_000; close_time = some 179_999 }

abbrev rows : List KlineInsert
rows = late ∷ early ∷ next ∷ []

abbrev empty : Stored
empty k = none

picks : pick_more_complete_kline late early ≡ ok late
unfolding pick_more_complete_kline is_at_least_as_complete
picks = refl

picks_resent :
    pick_more_complete_kline early (record early { source = codes "ws" })
    ≡ ok (record early { source = codes "ws" })
unfolding pick_more_complete_kline is_at_least_as_complete compare_numeric_strings parse_decimal
    compare_magnitude
picks_resent = refl

rows-Valid : All Valid rows
unfolding interval_to_ms
rows-Valid =
    ((refl, (refl, omega arith)), ((refl, (refl, omega arith)), ((refl, (refl, omega arith)), tt)))

rows-Writable : All (Writable Any) rows
rows-Writable = ((refl, tt), ((refl, tt), ((refl, tt), tt)))

kline_conflict_key-injective_example :
    (early.symbol ≡ late.symbol)
    × (early.interval ≡ late.interval)
    × (early.open_time ≡ late.open_time)
kline_conflict_key-injective_example =
    kline_conflict_key-injective early late rows-Valid.1.0 rows-Valid.0 refl refl refl

upsert_many_refines_example :
    (n : ℕ) × (s' : Stored) × (upsert_many table rows empty ≡ (ok n, s'))
    × ((k : Text)
        → table.row_at s' k ≡ written (on_conflict table) (best k rows) (table.row_at empty k))
upsert_many_refines_example =
    upsert_many_refines table Any table-IsLawful rows empty rows-Valid rows-Writable

upsert_many-KeepsUp_example :
    KeepsUp table
      (table.row_at (λ k. some early) (codes "BTCUSDT|1m|60000"))
      (table.row_at (upsert_many table rows (λ k. some early)).1 (codes "BTCUSDT|1m|60000"))
upsert_many-KeepsUp_example =
    upsert_many-KeepsUp table Any table-IsLawful rows (λ k. some early) rows-Valid rows-Writable
      (codes "BTCUSDT|1m|60000")
