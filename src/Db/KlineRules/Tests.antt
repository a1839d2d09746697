-- ===== src/Db/KlineRules/Tests.antt =====
-- Batches before the gate of kline-rules.ts.
use ariai_exam.Prelude.{codes, none, ◌≡◌, refl, List, [], ◌∷◌, some, err, All}
use ariai_exam.Db.Schema.{KlineInsert}
use ariai_exam.Db.KlineRules.{
  not_aligned, symbol_is_empty, interval_to_ms, find_kline_issues, assert_valid_klines,
}
use ariai_exam.Db.KlineRules.Laws.{Gate, Valid, assert_valid_klines_decides}

abbrev pub good : KlineInsert
good = record {
  symbol = codes "BTCUSDT";
  interval = codes "5m";
  open_time = some 300_000;
  close_time = some 599_999;
  open_price = codes "1.0";
  high = codes "2.0";
  low = codes "0.5";
  close = codes "1.5";
  volume = codes "10.5";
  quote_volume = codes "15.0";
  trade_count = some 4;
  taker_buy_base = some (codes "5.0");
  taker_buy_quote = none;
  source = codes "rest";
}

abbrev batch : List KlineInsert
batch = good ∷ record good { open_time = some 60_000 } ∷ record good { symbol = [] } ∷ []

batch_runs :
    assert_valid_klines batch
    ≡ err (
        record { index = 1; reason = not_aligned }
        ∷ record { index = 2; reason = symbol_is_empty }
        ∷ [])
unfolding assert_valid_klines find_kline_issues interval_to_ms
batch_runs = refl

assert_valid_klines_decides_example : Gate (assert_valid_klines batch) (All Valid batch)
assert_valid_klines_decides_example = assert_valid_klines_decides batch
