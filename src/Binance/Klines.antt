-- ===== src/Binance/Klines.antt =====
-- backend/src/binance/binance-rest.schemas.ts: the candles of the REST interface. The zod schemas have
-- checked the shape of a tuple before.
use ariai_exam.Prelude.{
  ℕ, ◌%◌, Bool, not, ◌&&◌, Text, text_eq, codes, Result, ok, err, leb, ◌==◌, if◌then◌else◌,
}
use ariai_exam.Config.{base_interval_ms}

-- `BASE_INTERVAL`
abbrev pub base_interval : Text
base_interval = codes "1m"

abbrev pub is_minute_aligned : ℕ → Bool
is_minute_aligned epoch_ms = (epoch_ms % base_interval_ms) == 0

-- `KlineTuple`, by position.
pub record KlineTuple : Type 0 where
  pub at_0 : ℕ
  pub at_1 : Text
  pub at_2 : Text
  pub at_3 : Text
  pub at_4 : Text
  pub at_5 : Text
  pub at_6 : ℕ
  pub at_7 : Text
  pub at_8 : ℕ
  pub at_9 : Text
  pub at_10 : Text

-- A time is its milliseconds.
pub record BinanceKline : Type 0 where
  pub open_time : ℕ
  pub close_time : ℕ
  pub open_price : Text
  pub high : Text
  pub low : Text
  pub close : Text
  pub volume : Text
  pub quote_volume : Text
  pub trade_count : ℕ
  pub taker_buy_base : Text
  pub taker_buy_quote : Text

pub data KlineError : Type 0 where
  open_time_not_aligned : ℕ → KlineError

unfoldable pub map_kline_tuple : KlineTuple → Text → Result KlineError BinanceKline
map_kline_tuple tuple interval =
    if text_eq interval base_interval && not (is_minute_aligned tuple.at_0)
    then err (open_time_not_aligned tuple.at_0)
    else ok (record {
      open_time = tuple.at_0;
      close_time = tuple.at_6;
      open_price = tuple.at_1;
      high = tuple.at_2;
      low = tuple.at_3;
      close = tuple.at_4;
      volume = tuple.at_5;
      quote_volume = tuple.at_7;
      trade_count = tuple.at_8;
      taker_buy_base = tuple.at_9;
      taker_buy_quote = tuple.at_10;
    })

abbrev pub max_klines_limit : ℕ
max_klines_limit = 1_000

abbrev pub server_time_weight : ℕ
server_time_weight = 1

abbrev pub klines_weight_for_limit : ℕ → ℕ
klines_weight_for_limit limit = if leb limit 100 then 1 else if leb limit 500 then 2 else 5
