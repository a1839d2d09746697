-- ===== src/Decimal/Numeric.antt =====
-- backend/src/db/numeric.ts: the order of two decimal texts, without floating point. The results
-- -1, 0 and 1 are `less`, `equal` and `greater`; a -0 is 0.
pub mod Magnitude
pub mod Units
pub mod Laws
use ariai_exam.Prelude.{
  Text, codes, text_eq, text_eq_iff, ℕ, zero, suc, ◌-◌, max, Bool, true, false, not, ◌&&◌, ◌||◌,
  List, [], ◌∷◌, ◌++◌, Result, ok, err, ◌>>=◌, ltb, leb, ◌==◌, if◌then◌else◌, length,
}
use ariai_exam.Decimal.Digits.{all_digits, some_digits, zeros, int_part, frac_part, has_dot}

pub data Sign : Type 0 where
  plus minus : Sign

pub data Order : Type 0 where
  less equal greater : Order

pub record DecimalParts : Type 0 where
  pub sign : Sign
  pub integer : Text
  pub fraction : Text

pub data NumericError : Type 0 where
  not_numeric : NumericError

-- The white space that `trim` takes away.
abbrev pub is_space : ℕ → Bool
is_space c =
    (leb 9 c && leb c 13)
    || c == 32
    || c == 160
    || c == 5_760
    || (leb 8_192 c && leb c 8_202)
    || c == 8_232
    || c == 8_233
    || c == 8_239
    || c == 8_287
    || c == 12_288
    || c == 65_279

abbrev pub trim_start : Text → Text
trim_start [] = []
trim_start (c ∷ s) = if is_space c then trim_start s else c ∷ s

-- A character in front of what is left of the text behind it: one that is to go stays only where
-- something is left.
abbrev pub keep_before : Bool → ℕ → Text → Text
keep_before goes c (d ∷ s) = c ∷ d ∷ s
keep_before goes c [] = if goes then [] else c ∷ []

abbrev pub trim_end : Text → Text
trim_end [] = []
trim_end (c ∷ s) = keep_before (is_space c) c (trim_end s)

-- `raw.trim()`
abbrev pub trim : Text → Text
trim raw = trim_start (trim_end raw)

abbrev pub starts_with : ℕ → Text → Bool
starts_with c [] = false
starts_with c (d ∷ s) = d == c

-- `slice(1)`
abbrev pub rest : Text → Text
rest [] = []
rest (c ∷ s) = s

abbrev pub is_negative : Text → Bool
is_negative raw = starts_with b'-' (trim raw)

abbrev pub unsigned : Text → Text
unsigned raw = if is_negative raw || starts_with b'+' (trim raw) then rest (trim raw) else trim raw

abbrev pub is_empty : Text → Bool
is_empty [] = true
is_empty (c ∷ s) = false

-- `DECIMAL_PATTERN`
abbrev pub decimal_pattern_test : Text → Bool
decimal_pattern_test s =
    (some_digits (int_part s) && all_digits (frac_part s))
    || (is_empty (int_part s) && has_dot s && some_digits (frac_part s))

-- `replace(/^0+/, '')`
abbrev pub strip_leading : Text → Text
strip_leading [] = []
strip_leading (c ∷ s) = if c == b'0' then strip_leading s else c ∷ s

-- `replace(/0+$/, '')`
abbrev pub strip_trailing : Text → Text
strip_trailing [] = []
strip_trailing (c ∷ s) = keep_before (c == b'0') c (strip_trailing s)

abbrev pub parts_of : Bool → Text → Text → DecimalParts
parts_of negative integer' fraction' = record {
  sign = if negative && not (is_empty integer' && is_empty fraction') then minus else plus;
  integer = integer';
  fraction = fraction';
}

unfoldable pub parse_decimal : Text → Result NumericError DecimalParts
parse_decimal raw =
    if decimal_pattern_test (unsigned raw)
    then ok (
        parts_of (is_negative raw) (strip_leading (int_part (unsigned raw)))
          (strip_trailing (frac_part (unsigned raw))))
    else err not_numeric

-- `<` on strings
abbrev pub text_lt : Text → Text → Bool
text_lt s [] = false
text_lt [] (d ∷ t) = true
text_lt (c ∷ s) (d ∷ t) = ltb c d || (c == d && text_lt s t)

abbrev pub text_order : Text → Text → Order
text_order s t = if text_eq s t then equal else if text_lt s t then less else greater

-- `padEnd(width, '0')`
abbrev pub pad_end : ℕ → Text → Text
pad_end width s = s ++ zeros (width - length s)

unfoldable pub compare_magnitude : DecimalParts → DecimalParts → Order
compare_magnitude left right =
    if not (length left.integer == length right.integer)
    then (if ltb (length left.integer) (length right.integer) then less else greater)
    else if not (text_eq left.integer right.integer)
    then (if text_lt left.integer right.integer then less else greater)
    else let width = max (length left.fraction) (length right.fraction) in
      text_order (pad_end width left.fraction) (pad_end width right.fraction)

-- `* left.sign`
abbrev pub times_sign : Order → Sign → Order
times_sign o plus = o
times_sign less minus = greater
times_sign equal minus = equal
times_sign greater minus = less

abbrev pub compare_parts : Sign → Sign → Order → Order
compare_parts minus plus o = less
compare_parts plus minus o = greater
compare_parts plus plus o = times_sign o plus
compare_parts minus minus o = times_sign o minus

unfoldable pub compare_numeric_strings : Text → Text → Result NumericError Order
compare_numeric_strings a b = do
  left ← parse_decimal a
  right ← parse_decimal b
  ok (compare_parts left.sign right.sign (compare_magnitude left right))
