-- ===== src/Ingest/StreamKeys.antt =====
-- The keys of the streams: backend/src/ingest/stream-message.parser.ts writes them, and
-- backend/src/api/ops/stream-health.util.ts and backend/src/backfill/stream-status.util.ts read them.
pub mod Laws
mod Tests
use ariai_exam.Prelude.{
  ℕ, Text, codes, text_eq, Bool, ◌&&◌, ◌||◌, true, false, List, [], ◌∷◌, ◌++◌, Option, none, some,
  ◌==◌, if◌then◌else◌,
}
use ariai_exam.Config.{Symbol, btcusdt, ethusdt, symbol_name}

pub data StreamKind : Type 0 where
  kline trade : StreamKind

pub record ParsedStreamKey : Type 0 where
  pub kind : StreamKind
  pub symbol : Symbol

unfoldable pub kline_stream_key : Symbol → Text
kline_stream_key symbol = codes "kline:" ++ (symbol_name symbol ++ codes ":1m")

unfoldable pub trade_stream_key : Symbol → Text
trade_stream_key symbol = codes "trade:" ++ symbol_name symbol

-- The first part of `split(':')`, and what stands behind the colon after it.
abbrev pub first_part : Text → Text
first_part [] = []
first_part (c ∷ s) = if c == b':' then [] else c ∷ first_part s

abbrev pub other_parts : Text → Text
other_parts [] = []
other_parts (c ∷ s) = if c == b':' then s else other_parts s

-- The symbol of `SUPPORTED_SYMBOLS` that a text is.
abbrev pub symbol_of : Text → Option Symbol
symbol_of s =
    if text_eq (symbol_name btcusdt) s
    then some btcusdt
    else if text_eq (symbol_name ethusdt) s
    then some ethusdt
    else none

abbrev pub with_kind : StreamKind → Option Symbol → Option ParsedStreamKey
with_kind kind' none = none
with_kind kind' (some symbol') = some (record { kind = kind'; symbol = symbol' })

-- A second part that is missing is read as an empty one.
unfoldable pub parse_stream_key : Text → Option ParsedStreamKey
parse_stream_key key =
    if text_eq (first_part key) (codes "kline")
    then with_kind kline (symbol_of (first_part (other_parts key)))
    else if text_eq (first_part key) (codes "trade")
    then with_kind trade (symbol_of (first_part (other_parts key)))
    else none

-- `startsWith` and `slice`: what stands behind a prefix.
abbrev pub strip_prefix : Text → Text → Option Text
strip_prefix [] s = some s
strip_prefix (c ∷ prefix') [] = none
strip_prefix (c ∷ prefix') (d ∷ s) = if d == c then strip_prefix prefix' s else none

-- `supported.find`
abbrev pub find_symbol : Text → List Symbol → Option Symbol
find_symbol s [] = none
find_symbol s (symbol ∷ symbols) =
    if text_eq (symbol_name symbol) s then some symbol else find_symbol s symbols

abbrev pub find_in : List Symbol → Option Text → Option Symbol
find_in supported none = none
find_in supported (some s) = find_symbol (first_part s) supported

unfoldable pub parse_symbol_from_kline_stream_key : Text → List Symbol → Option Symbol
parse_symbol_from_kline_stream_key key supported =
    find_in supported (strip_prefix (codes "kline:") key)
