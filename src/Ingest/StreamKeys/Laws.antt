-- ===== src/Ingest/StreamKeys/Laws.antt =====
-- The writer and the two readers of the keys agree.
use mathlib.Core.Path.{subst}
use ariai_exam.Prelude.{
  Text, codes, text_eq, text_eq_iff, ◌≡◌, ◌∙◌, refl, sym, arith, Bool, true, false, List, [], ◌∷◌,
  ◌++◌, Option, none, some, ◌==◌, if◌then◌else◌, any, Bool-cases, inl, inr, has,
}
use ariai_exam.Config.{Symbol, btcusdt, ethusdt, symbol_name, same_symbol}
use ariai_exam.Ingest.StreamKeys.{
  kline, trade, ParsedStreamKey, kline_stream_key, trade_stream_key, first_part, other_parts,
  symbol_of, with_kind, parse_stream_key, strip_prefix, find_symbol, find_in,
  parse_symbol_from_kline_stream_key,
}

-- The symbol of a key of candles, where it is one of those that are collected.
abbrev pub collected : List Symbol → Option Symbol → Option Symbol
collected supported none = none
collected supported (some symbol) =
    if any (λ other. same_symbol other symbol) supported then some symbol else none

abbrev pub kline_symbol : Option ParsedStreamKey → Option Symbol
kline_symbol none = none
kline_symbol (some p) = elim p.kind [ kline ↦ some p.symbol | trade ↦ none ]

found :
    (t : Symbol) (supported : List Symbol)
    → find_symbol (symbol_name t) supported ≡ collected supported (some t)
found t [] = refl
found btcusdt (btcusdt ∷ symbols) = refl
found btcusdt (ethusdt ∷ symbols) = found btcusdt symbols
found ethusdt (btcusdt ∷ symbols) = found ethusdt symbols
found ethusdt (ethusdt ∷ symbols) = refl

missing :
    (s : Text) (supported : List Symbol)
    → text_eq (symbol_name btcusdt) s ≡ false
    → text_eq (symbol_name ethusdt) s ≡ false
    → find_symbol s supported ≡ none
missing s [] b e = refl
missing s (btcusdt ∷ symbols) b e = rw b (missing s symbols b e)
missing s (ethusdt ∷ symbols) b e = rw e (missing s symbols b e)

find_symbol_lem :
    (s : Text) (supported : List Symbol)
    → find_symbol s supported ≡ collected supported (symbol_of s)
find_symbol_lem s supported = elim (Bool-cases (text_eq (symbol_name btcusdt) s)) [
  | inl b ↦ is_known btcusdt b
  | inr b ↦ elim (Bool-cases (text_eq (symbol_name ethusdt) s)) [
    | inl e ↦ is_known ethusdt e
    | inr e ↦ missing s supported b e ∙ rw (b, e) refl
  ]
]
  where
    known :
        (t : Symbol)
        → find_symbol (symbol_name t) supported ≡ collected supported (symbol_of (symbol_name t))
    known btcusdt = found btcusdt supported
    known ethusdt = found ethusdt supported

    is_known :
        (t : Symbol)
        → text_eq (symbol_name t) s ≡ true
        → find_symbol s supported ≡ collected supported (symbol_of s)
    is_known t h =
        subst (λ u. find_symbol u supported ≡ collected supported (symbol_of u))
          ((text_eq_iff (symbol_name t) s).0 h) (known t)

-- What is found behind a prefix that ends with the first colon.
abbrev behind : (Text → Option Symbol) → Option Text → Option Symbol
behind find none = none
behind find (some s) = find s

prefix_lem :
    (p key : Text) (find : Text → Option Symbol)
    → has b':' p ≡ false
    → find [] ≡ none
    → behind find (strip_prefix (p ++ (b':' ∷ [])) key)
      ≡ (if text_eq (first_part key) p then find (other_parts key) else none)
prefix_lem [] [] find h e = sym e
prefix_lem [] (d ∷ key) find h e = elim (Bool-cases (d == b':')) [
  | inl colon ↦ rw colon refl
  | inr other ↦ rw other refl
]
prefix_lem (c ∷ p) [] find h e = refl
prefix_lem (c ∷ p) (d ∷ key) find h e = elim (Bool-cases (d == c)) [
  | inl same ↦
      let colon : (d == b':') ≡ false = ground (arith, same, h) in
      rw (same, colon) (rw same (prefix_lem p key find (ground (arith, h)) e))
  | inr differs ↦ elim (Bool-cases (d == b':')) [
    | inl colon ↦ rw (differs, colon) refl
    | inr other ↦ rw (differs, other) (rw differs refl)
  ]
]

find_in_lem :
    (supported : List Symbol) (o : Option Text)
    → find_in supported o ≡ behind (λ s. find_symbol (first_part s) supported) o
find_in_lem supported none = refl
find_in_lem supported (some s) = refl

as_kline :
    (supported : List Symbol) (o : Option Symbol)
    → collected supported o ≡ collected supported (kline_symbol (with_kind kline o))
as_kline supported none = refl
as_kline supported (some symbol) = refl

as_trade :
    (supported : List Symbol) (b : Bool) (o : Option Symbol)
    → none ≡ collected supported (kline_symbol (if b then with_kind trade o else none))
as_trade supported true none = refl
as_trade supported true (some symbol) = refl
as_trade supported false o = refl

-- The reader of the backfill finds the symbol that the reader of the health report finds in a key of candles, where it
-- is one of those that are collected, and nothing else.
pub parse_symbol_lem :
    (key : Text) (supported : List Symbol)
    → parse_symbol_from_kline_stream_key key supported
      ≡ collected supported (kline_symbol (parse_stream_key key))
unfolding parse_symbol_from_kline_stream_key parse_stream_key
parse_symbol_lem key supported =
    let o = symbol_of (first_part (other_parts key)) in
    find_in_lem supported (strip_prefix (codes "kline:") key)
    ∙ prefix_lem (codes "kline") key (λ s. find_symbol (first_part s) supported) refl
        (missing [] supported refl refl)
    ∙ elim (Bool-cases (text_eq (first_part key) (codes "kline"))) [
      | inl h ↦
          rw h (find_symbol_lem (first_part (other_parts key)) supported ∙ as_kline supported o)
      | inr h ↦ rw h (as_trade supported (text_eq (first_part key) (codes "trade")) o)
    ]

-- A key that is written is read back with its kind and its symbol.
pub parse_stream_key-written :
    (symbol : Symbol)
    → (parse_stream_key (kline_stream_key symbol) ≡ some (record { kind = kline; symbol = symbol }))
      × (parse_stream_key (trade_stream_key symbol)
          ≡ some (record { kind = trade; symbol = symbol }))
unfolding parse_stream_key kline_stream_key trade_stream_key
parse_stream_key-written btcusdt = (refl, refl)
parse_stream_key-written ethusdt = (refl, refl)
