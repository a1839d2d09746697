-- ===== src/Db/Schema.antt =====
-- backend/src/db/schema.ts: the rows of the tables, as they are inserted.
use ariai_exam.Prelude.{ℕ, Text, Option}

-- `KlineInsert`, without `ingestedAt`, which every writer leaves to the default of the column. A time
-- that is not valid is `none`; so is a field that is left out.
pub record KlineInsert : Type 0 where
  pub symbol : Text
  pub interval : Text
  pub open_time : Option ℕ
  pub close_time : Option ℕ
  pub open_price : Text
  pub high : Text
  pub low : Text
  pub close : Text
  pub volume : Text
  pub quote_volume : Text
  pub trade_count : Option ℕ
  pub taker_buy_base : Option Text
  pub taker_buy_quote : Option Text
  pub source : Text

-- The columns of `klines`: these and `ingestedAt`.
abbrev pub kline_column_count : ℕ
kline_column_count = 15
