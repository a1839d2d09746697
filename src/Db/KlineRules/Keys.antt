-- ===== src/Db/KlineRules/Keys.antt =====
-- Two candles have one conflict key only where they are the same candle.
use mathlib.Core.Path.{ap₂}
use ariai_exam.Prelude.{
  ℕ, ◌≡◌, ◌∙◌, refl, sym, ap, arith, Text, codes, text_eq, text_eq_iff, true, false, [], ◌∷◌, ◌++◌,
  Option, none, some, has, Bool-cases, inl, inr,
}
use ariai_exam.Decimal.Digits.{all_digits, value, to_digits}
use ariai_exam.Decimal.Digits.Value.{to_digits_lem}
use ariai_exam.Db.Schema.{KlineInsert}
use ariai_exam.Db.Dedupe.{key_separator}
use ariai_exam.Db.KlineRules.{interval_to_ms, kline_conflict_key}
use ariai_exam.Db.KlineRules.Laws.{Valid, ValidInterval, ValidTimes}

-- Texts without a separator can be told from what follows it.
split_key :
    (s t u v : Text)
    → has key_separator s ≡ false
    → has key_separator t ≡ false
    → s ++ (key_separator ∷ u) ≡ t ++ (key_separator ∷ v)
    → (s ≡ t) × (u ≡ v)
split_key [] [] u v hs ht e = (refl, cc)
split_key [] (d ∷ t) u v hs ht e =
    let same : key_separator ≡ d = cc in absurd (ground (arith, same, ht))
split_key (c ∷ s) [] u v hs ht e =
    let same : c ≡ key_separator = cc in absurd (ground (arith, same, hs))
split_key (c ∷ s) (d ∷ t) u v hs ht e =
    let same : c ≡ d = cc in
    let tails : s ++ (key_separator ∷ u) ≡ t ++ (key_separator ∷ v) = cc in
    let (st, uv) = split_key s t u v (ground arith) (ground arith) tails in (ap₂ ◌∷◌ same st, uv)

has-digits : (s : Text) → all_digits s ≡ true → has key_separator s ≡ false
has-digits [] h = refl
has-digits (c ∷ s) h = ground (arith, has-digits s)

supported :
    (interval' : Text) (ms : ℕ)
    → interval_to_ms interval' ≡ some ms
    → has key_separator interval' ≡ false
unfolding interval_to_ms
supported interval' ms e = elim (Bool-cases (text_eq interval' (codes "1m"))) [
  | inl h ↦ known (codes "1m") h refl
  | inr h1 ↦ elim (Bool-cases (text_eq interval' (codes "5m"))) [
    | inl h ↦ known (codes "5m") h refl
    | inr h2 ↦ elim (Bool-cases (text_eq interval' (codes "15m"))) [
      | inl h ↦ known (codes "15m") h refl
      | inr h3 ↦ elim (Bool-cases (text_eq interval' (codes "1h"))) [
        | inl h ↦ known (codes "1h") h refl
        | inr h4 ↦ let unknown : none ≡ some ms = rw (h1, h2, h3, h4) at e in cc
      ]
    ]
  ]
]
  where
    known :
        (s : Text)
        → text_eq interval' s ≡ true
        → has key_separator s ≡ false
        → has key_separator interval' ≡ false
    known s h k = ap (has key_separator) ((text_eq_iff interval' s).0 h) ∙ k

abbrev ValidTimesOf : Option ℕ → Option ℕ → Option ℕ → Type 0
ValidTimesOf none open_ms close_ms = ⊥
ValidTimesOf (some ms) open_ms close_ms = ValidTimes ms open_ms close_ms

times_of :
    (ms : Option ℕ) (row : KlineInsert)
    → ValidInterval ms row
    → ValidTimesOf ms row.open_time row.close_time
times_of none row h = h
times_of (some ms) row h = h

known_parts :
    (row : KlineInsert)
    → Valid row
    → (has key_separator row.interval ≡ false) × (ms : ℕ) × (row.open_time ≡ some ms)
known_parts row v =
    go (interval_to_ms row.interval) row.open_time row.close_time refl
      (times_of (interval_to_ms row.interval) row v.1)
  where
    go :
        (ms open_ms close_ms : Option ℕ)
        → interval_to_ms row.interval ≡ ms
        → ValidTimesOf ms open_ms close_ms
        → (has key_separator row.interval ≡ false) × (m : ℕ) × (open_ms ≡ some m)
    go none open_ms close_ms e h = absurd h
    go (some ms) none close_ms e h = absurd h
    go (some ms) (some m) none e h = absurd h
    go (some ms) (some m) (some close_ms) e h = (supported row.interval ms e, m, refl)

time_text-injective : (m n : ℕ) → to_digits m ≡ to_digits n → m ≡ n
time_text-injective m n e = sym (to_digits_lem m).0 ∙ ap (value 0) e ∙ (to_digits_lem n).0

-- Of rows that may be written, and whose symbols have no separator: one conflict key means one symbol, one interval and one
-- open time.
pub kline_conflict_key-injective :
    (a b : KlineInsert)
    → Valid a
    → Valid b
    → has key_separator a.symbol ≡ false
    → has key_separator b.symbol ≡ false
    → kline_conflict_key a ≡ kline_conflict_key b
    → (a.symbol ≡ b.symbol) × (a.interval ≡ b.interval) × (a.open_time ≡ b.open_time)
kline_conflict_key-injective a b va vb sa sb e =
    let (ia, m, oa) = known_parts a va in
    let (ib, n, ob) = known_parts b vb in
    let (symbols, others) = split_key a.symbol b.symbol _ _ sa sb e in
    let (intervals, times) = split_key a.interval b.interval _ _ ia ib others in
    (symbols, intervals, oa ∙ ap some (time_text-injective m n (rw (oa, ob) at times)) ∙ sym ob)
