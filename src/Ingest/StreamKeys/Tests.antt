-- ===== src/Ingest/StreamKeys/Tests.antt =====
-- Keys as they are written, and one that is not.
use ariai_exam.Prelude.{◌≡◌, refl, codes, none, some, [], ◌∷◌}
use ariai_exam.Config.{btcusdt, ethusdt}
use ariai_exam.Ingest.StreamKeys.{
  trade, kline_stream_key, trade_stream_key, parse_stream_key, parse_symbol_from_kline_stream_key,
}
use ariai_exam.Ingest.StreamKeys.Laws.{collected, kline_symbol, parse_symbol_lem}

writes : kline_stream_key btcusdt ≡ codes "kline:BTCUSDT:1m"
unfolding kline_stream_key
writes = refl

reads_trade :
    parse_stream_key (trade_stream_key ethusdt) ≡ some (record { kind = trade; symbol = ethusdt })
unfolding parse_stream_key trade_stream_key
reads_trade = refl

refuses : parse_symbol_from_kline_stream_key (codes "trade:BTCUSDT") (btcusdt ∷ []) ≡ none
unfolding parse_symbol_from_kline_stream_key
refuses = refl

parse_symbol_lem_example :
    parse_symbol_from_kline_stream_key (codes "kline:BTCUSDT:1m") (ethusdt ∷ btcusdt ∷ [])
    ≡ collected
        (ethusdt ∷ btcusdt ∷ [])
        (kline_symbol (parse_stream_key (codes "kline:BTCUSDT:1m")))
parse_symbol_lem_example = parse_symbol_lem (codes "kline:BTCUSDT:1m") (ethusdt ∷ btcusdt ∷ [])
