-- ===== src/Backfill/KlineMapper.antt =====
-- backend/src/backfill/kline-mapper.ts: a candle of the exchange as a row of the table.
use ariai_exam.Prelude.{
  ℕ, ◌+◌, ◌%◌, Bool, not, Text, codes, some, Result, ok, err, leb, ◌==◌, if◌then◌else◌,
}
use ariai_exam.Binance.Klines.{BinanceKline, KlineError, open_time_not_aligned}
use ariai_exam.Db.Schema.{KlineInsert}

abbrev pub insert_of : Text → Text → BinanceKline → KlineInsert
insert_of symbol interval kline = record {
  symbol = symbol;
  interval = interval;
  open_time = some kline.open_time;
  close_time = some kline.close_time;
  open_price = kline.open_price;
  high = kline.high;
  low = kline.low;
  close = kline.close;
  volume = kline.volume;
  quote_volume = kline.quote_volume;
  trade_count = some kline.trade_count;
  taker_buy_base = some kline.taker_buy_base;
  taker_buy_quote = some kline.taker_buy_quote;
  source = codes "rest";
}

unfoldable pub to_kline_insert : Text → Text → BinanceKline → ℕ → Result KlineError KlineInsert
to_kline_insert symbol interval kline step_ms =
    if not ((kline.open_time % step_ms) == 0)
    then err (open_time_not_aligned kline.open_time)
    else ok (insert_of symbol interval kline)

abbrev pub is_closed_candle : BinanceKline → ℕ → ℕ → Bool
is_closed_candle kline step_ms now_ms = leb (kline.open_time + step_ms) now_ms
