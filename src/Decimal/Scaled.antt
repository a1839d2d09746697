-- ===== src/Decimal/Scaled.antt =====
-- backend/src/ingest/decimal.util.ts: the exact product of two decimal texts.
pub mod Laws
use ariai_exam.Prelude.{
  Text, codes, text_eq, text_eq_iff, ℕ, zero, suc, ◌+◌, ◌-◌, ◌*◌, Bool, true, false, ◌&&◌, List, [],
  ◌∷◌, ◌++◌, Result, ok, err, ◌>>=◌, ltb, ◌==◌, if◌then◌else◌, length, take, drop,
}
use ariai_exam.Decimal.Digits.{
  int_part, frac_part, has_dot, all_digits, some_digits, value, to_digits, zeros,
}

-- `bigint`
pub data ℤ : Type 0 where
  pos negsuc : ℕ → ℤ

-- `-n`
abbrev pub negate : ℕ → ℤ
negate zero = pos zero
negate (suc n) = negsuc n

infixl 60 ◌*ℤ◌
abbrev pub ◌*ℤ◌ : ℤ → ℤ → ℤ
pos m *ℤ pos n = pos (m * n)
pos m *ℤ negsuc n = negate (m * suc n)
negsuc m *ℤ pos n = negate (suc m * n)
negsuc m *ℤ negsuc n = pos (suc m * suc n)

pub record ScaledDecimal : Type 0 where
  pub digits : ℤ
  pub scale : ℕ

pub data DecimalError : Type 0 where
  not_a_decimal : DecimalError

-- `DECIMAL_RE`, without and with the sign
abbrev pub unsigned_test : Text → Bool
unsigned_test s =
    some_digits (int_part s) && (if has_dot s then some_digits (frac_part s) else true)

abbrev pub skip_minus : Text → Text
skip_minus [] = []
skip_minus (c ∷ s) = if c == b'-' then s else c ∷ s

abbrev pub decimal_re_test : Text → Bool
decimal_re_test s = unsigned_test (skip_minus s)

-- `BigInt` of digits with an optional sign
abbrev pub big_int : Text → ℤ
big_int [] = pos 0
big_int (c ∷ s) = if c == b'-' then negate (value 0 s) else pos (value 0 (c ∷ s))

unfoldable pub parse_decimal : Text → Result DecimalError ScaledDecimal
parse_decimal s =
    if decimal_re_test s
    then ok record { digits = big_int (int_part s ++ frac_part s); scale = length (frac_part s) }
    else err not_a_decimal

-- `padStart(width, '0')`
abbrev pub pad_start : ℕ → Text → Text
pad_start width s = zeros (width - length s) ++ s

abbrev pub magnitude : ℤ → ℕ
magnitude (pos n) = n
magnitude (negsuc n) = suc n

abbrev pub sign_text : ℤ → Text
sign_text (pos n) = []
sign_text (negsuc n) = b'-' ∷ []

-- The padded digits, with the dot before the last `scale` of them.
abbrev pub put_dot : ℕ → Text → Text
put_dot scale' abs' =
    take (length abs' - scale') abs'
    ++ (if ltb 0 scale' then b'.' ∷ drop (length abs' - scale') abs' else [])

unfoldable pub format_scaled : ℤ → ℕ → Text
format_scaled digits' scale' =
    sign_text digits' ++ put_dot scale' (pad_start (suc scale') (to_digits (magnitude digits')))

unfoldable pub mul_decimal : Text → Text → Result DecimalError Text
mul_decimal a b = do
  pa ← parse_decimal a
  pb ← parse_decimal b
  ok (format_scaled (pa.digits *ℤ pb.digits) (pa.scale + pb.scale))
