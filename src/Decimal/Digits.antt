-- ===== src/Decimal/Digits.antt =====
-- Texts as lists of code points, and the decimal digits of a number, as `BigInt` reads and writes
-- them.
pub mod Value
use ariai_exam.Prelude.{
  Text, ℕ, zero, suc, ◌+◌, ◌-◌, ◌*◌, ◌/◌, ◌%◌, Bool, true, false, ◌&&◌, List, [], ◌∷◌, ltb, leb,
  ◌==◌, if◌then◌else◌,
}

-- `\d`
abbrev pub is_digit : ℕ → Bool
is_digit c = leb b'0' c && leb c b'9'

abbrev pub all_digits : Text → Bool
all_digits [] = true
all_digits (c ∷ s) = is_digit c && all_digits s

-- `\d+`
abbrev pub some_digits : Text → Bool
some_digits [] = false
some_digits (c ∷ s) = all_digits (c ∷ s)

-- The number that digits spell after those of `n`.
abbrev pub value : ℕ → Text → ℕ
value n [] = n
value n (c ∷ s) = value (n * 10 + (c - b'0')) s

-- The digits of a number, written before `out`. Each round but the last takes a digit away, so more
-- rounds than the number itself are never needed.
unfoldable pub spell : ℕ → ℕ → Text → Text
spell zero n out = out
spell (suc fuel) n out = elim (ltb n 10) [
  | true ↦ (b'0' + n) ∷ out
  | false ↦ spell fuel (n / 10) ((b'0' + n % 10) ∷ out)
]

-- `toString` of a `BigInt` that is not negative.
unfoldable pub to_digits : ℕ → Text
unfolding spell
to_digits n = spell (suc n) n []

-- `'0'.repeat(n)`
abbrev pub zeros : ℕ → Text
zeros zero = []
zeros (suc n) = b'0' ∷ zeros n

-- What stands before the first dot, all of it where there is none, and what stands behind it.
abbrev pub int_part : Text → Text
int_part [] = []
int_part (c ∷ s) = if c == b'.' then [] else c ∷ int_part s

abbrev pub frac_part : Text → Text
frac_part [] = []
frac_part (c ∷ s) = if c == b'.' then s else frac_part s

abbrev pub has_dot : Text → Bool
has_dot [] = false
has_dot (c ∷ s) = if c == b'.' then true else has_dot s
