-- ===== src/Decimal/Tests.antt =====
-- Runs on concrete texts, and the theorems at concrete inputs.
use ariai_exam.Prelude.{Text, codes, refl, ok, err, ◌≡◌, ◌+◌, arith}
use ariai_exam.Decimal.Digits.{spell, to_digits}
use ariai_exam.Decimal.Scaled.{
  not_a_decimal, ScaledDecimal, pos, negsuc, ◌*ℤ◌, parse_decimal, format_scaled, mul_decimal,
}
use ariai_exam.Decimal.Scaled.Laws.{parse_decimal-format_scaled, mul_decimal_exact}
use ariai_exam.Decimal.Numeric.{
  less, equal, not_numeric, compare_numeric_strings, compare_magnitude,
  parse_decimal as parse_numeric,
}
use ariai_exam.Decimal.Numeric.Laws.{number, order_of_ℤ, compare_numeric_strings_lem}

mul_small : mul_decimal (codes "0.1") (codes "0.2") ≡ ok (codes "0.02")
unfolding mul_decimal parse_decimal format_scaled to_digits spell
mul_small = refl

mul_negative : mul_decimal (codes "-1.50") (codes "3") ≡ ok (codes "-4.50")
unfolding mul_decimal parse_decimal format_scaled to_digits spell
mul_negative = refl

mul_refuses : mul_decimal (codes "1.") (codes "3") ≡ err not_a_decimal
unfolding mul_decimal parse_decimal
mul_refuses = refl

compare_padded : compare_numeric_strings (codes " 0012.3400") (codes "+12.34") ≡ ok equal
unfolding compare_numeric_strings parse_numeric compare_magnitude
compare_padded = refl

compare_negative : compare_numeric_strings (codes "-2") (codes "-.5") ≡ ok less
unfolding compare_numeric_strings parse_numeric compare_magnitude
compare_negative = refl

compare_zero : compare_numeric_strings (codes "-0.0") (codes "0.") ≡ ok equal
unfolding compare_numeric_strings parse_numeric compare_magnitude
compare_zero = refl

compare_refuses : compare_numeric_strings (codes "1e3") (codes "0.") ≡ err not_numeric
unfolding compare_numeric_strings parse_numeric compare_magnitude
compare_refuses = refl

parse_decimal-format_scaled_example :
    parse_decimal (format_scaled (negsuc 4) 3) ≡ ok record { digits = negsuc 4; scale = 3 }
parse_decimal-format_scaled_example = parse_decimal-format_scaled (negsuc 4) 3

abbrev price : ScaledDecimal
price = record { digits = negsuc 1_249; scale = 2 }

abbrev quantity : ScaledDecimal
quantity = record { digits = pos 4; scale = 1 }

reads_price : parse_decimal (codes "-12.50") ≡ ok price
unfolding parse_decimal
reads_price = refl

reads_quantity : parse_decimal (codes "0.4") ≡ ok quantity
unfolding parse_decimal
reads_quantity = refl

mul_decimal_exact_example :
    (product : Text) × (mul_decimal (codes "-12.50") (codes "0.4") ≡ ok product)
    × (parse_decimal product
        ≡ ok record {
          digits = price.digits *ℤ quantity.digits;
          scale = price.scale + quantity.scale;
        })
mul_decimal_exact_example =
    mul_decimal_exact (codes "-12.50") (codes "0.4") price quantity reads_price reads_quantity

compare_numeric_strings_lem_example :
    compare_numeric_strings (codes "-12.5") (codes "3.25")
    ≡ ok (order_of_ℤ (number 2 (codes "-12.5")) (number 2 (codes "3.25")))
compare_numeric_strings_lem_example =
    compare_numeric_strings_lem (codes "-12.5") (codes "3.25") 2 refl refl (omega arith)
      (omega arith)
