-- ===== src/Decimal/Numeric/Laws.antt =====
-- The order of two texts is the order of the numbers that they write.
use native.Mathlib.Nat.{one-le-pow}
use ariai_exam.Prelude.{
  Text, ℕ, zero, suc, ◌+◌, ◌-◌, ◌*◌, ◌≤◌, ◌^◌, ◌≡◌, ◌∙◌, refl, sym, ap, arith, Bool, true, false,
  not, ◌&&◌, ◌||◌, [], ◌∷◌, ◌++◌, ok, ◌==◌, if◌then◌else◌, length, Bool-cases, inl, inr,
}
use ariai_exam.Decimal.Digits.{all_digits, some_digits, value, int_part, frac_part, has_dot}
use ariai_exam.Decimal.Digits.Value.{value-append}
use ariai_exam.Decimal.Scaled.{ℤ, pos, negsuc, negate}
use ariai_exam.Decimal.Numeric.{
  Sign, plus, minus, Order, less, greater, is_negative, unsigned, decimal_pattern_test,
  strip_leading, strip_trailing, is_empty, parts_of, parse_decimal, compare_parts,
  compare_numeric_strings,
}
use ariai_exam.Decimal.Numeric.Magnitude.{order_of}
use ariai_exam.Decimal.Numeric.Units.{units, units-strip, compare_magnitude-units}

-- The order of two integers.
abbrev pub order_of_ℤ : ℤ → ℤ → Order
order_of_ℤ (pos m) (pos n) = order_of m n
order_of_ℤ (pos m) (negsuc n) = greater
order_of_ℤ (negsuc m) (pos n) = less
order_of_ℤ (negsuc m) (negsuc n) = order_of n m

abbrev pub signed : Bool → ℕ → ℤ
signed false n = pos n
signed true n = negate n

-- The number that a text writes, in units of 10^-k.
abbrev pub number : ℕ → Text → ℤ
number k raw =
    signed (is_negative raw) (units k (int_part (unsigned raw)) (frac_part (unsigned raw)))

abbrev pub fraction_length : Text → ℕ
fraction_length raw = length (frac_part (unsigned raw))

le-value : (n : ℕ) (s : Text) → n ≤ value n s
le-value n [] = omega arith
le-value n (c ∷ s) = omega (arith, le-value (n * 10 + (c - b'0')) s)

is_zero :
    (c : ℕ) (s : Text) (n : ℕ)
    → all_digits (c ∷ s) ≡ true
    → value n (c ∷ s) ≡ 0
    → (n * 10 + (c - b'0') ≡ 0) × (c ≡ b'0') × (all_digits s ≡ true)
is_zero c s n h e = ground (arith, le-value (n * 10 + (c - b'0')) s)

stripped_zero :
    (s : Text) (n : ℕ)
    → all_digits s ≡ true
    → value n s ≡ 0
    → (strip_leading s ≡ []) × (strip_trailing s ≡ [])
stripped_zero [] n h e = (refl, refl)
stripped_zero (c ∷ s) n h e =
    let (z, zero_digit, rest_digits) = is_zero c s n h e in
    let (l, t) = stripped_zero s (n * 10 + (c - b'0')) rest_digits e in
    rw (zero_digit, l, t) (refl, refl)

-- The sign of a number of that magnitude.
abbrev sign_of : Bool → ℕ → Sign
sign_of negative n = if negative && not (n == 0) then minus else plus

compare_parts_lem :
    (a b : Bool) (m n : ℕ)
    → compare_parts (sign_of a m) (sign_of b n) (order_of m n)
      ≡ order_of_ℤ (signed a m) (signed b n)
compare_parts_lem false false m n = refl
compare_parts_lem false true m zero = refl
compare_parts_lem false true m (suc n) = ground arith
compare_parts_lem true false zero n = refl
compare_parts_lem true false (suc m) n = ground arith
compare_parts_lem true true zero zero = refl
compare_parts_lem true true (suc m) zero = ground arith
compare_parts_lem true true zero (suc n) = ground arith
compare_parts_lem true true (suc m) (suc n) = ground arith

units_zero : (k : ℕ) (i f : Text) → units k i f ≡ 0 → value (value 0 i) f ≡ 0
units_zero k i f h =
    let p = one-le-pow (k - length f) 10 (omega arith) in
    sym (value-append 0 i f) ∙ no_factor (value 0 (i ++ f)) (10 ^ (k - length f)) p h
  where
    no_factor : (v p : ℕ) → 1 ≤ p → v * p ≡ 0 → v ≡ 0
    no_factor zero p hp h = refl
    no_factor (suc v) p hp h = absurd (grind arith)

module _ (k : ℕ) (i f : Text) (hi : all_digits i ≡ true) (hf : all_digits f ≡ true)
    (h : length f ≤ k) where
  is_empty-units : (is_empty (strip_leading i) && is_empty (strip_trailing f)) ≡ (units k i f == 0)
  is_empty-units = elim (Bool-cases (units k i f == 0)) [
    | inl z ↦
        let e = units_zero k i f (ground arith) in
        let i0 = (stripped_zero i 0 hi (omega (arith, e, le-value (value 0 i) f))).0 in
        let f0 = (stripped_zero f (value 0 i) hf e).1 in rw (z, i0, f0) refl
    | inr nz ↦ rw nz (go (strip_leading i) (strip_trailing f) (units-strip k i f h) nz)
  ]
    where
      go :
          (s t : Text)
          → units k s t ≡ units k i f
          → (units k i f == 0) ≡ false
          → (is_empty s && is_empty t) ≡ false
      go [] [] e nz = absurd (grind arith)
      go [] (c ∷ t) e nz = refl
      go (c ∷ s) t e nz = refl

  sign-parts_of :
      (negative : Bool)
      → (parts_of negative (strip_leading i) (strip_trailing f)).sign
        ≡ sign_of negative (units k i f)
  sign-parts_of negative = ap (λ b. if negative && not b then minus else plus) is_empty-units

-- The digits of a text that the pattern accepts.
pattern_digits :
    (s : Text)
    → decimal_pattern_test s ≡ true
    → (all_digits (int_part s) ≡ true) × (all_digits (frac_part s) ≡ true)
pattern_digits s h = go (int_part s) (frac_part s) (has_dot s) h
  where
    go :
        (i f : Text) (dot : Bool)
        → ((some_digits i && all_digits f) || (is_empty i && dot && some_digits f)) ≡ true
        → (all_digits i ≡ true) × (all_digits f ≡ true)
    go [] [] dot h = (refl, refl)
    go [] (c ∷ f) dot h = ground arith
    go (d ∷ i) f dot h = ground arith

-- For two texts that the pattern accepts, and any number k of places that covers both fractions: the
-- texts are compared as the integers that they write in units of 10^-k, signs included.
pub compare_numeric_strings_lem :
    (a b : Text) (k : ℕ)
    → decimal_pattern_test (unsigned a) ≡ true
    → decimal_pattern_test (unsigned b) ≡ true
    → fraction_length a ≤ k
    → fraction_length b ≤ k
    → compare_numeric_strings a b ≡ ok (order_of_ℤ (number k a) (number k b))
unfolding compare_numeric_strings parse_decimal
compare_numeric_strings_lem a b k ha hb la lb =
    let (ia, fa) = pattern_digits (unsigned a) ha in
    let (ib, fb) = pattern_digits (unsigned b) hb in
    let i = int_part (unsigned a) in
    let f = frac_part (unsigned a) in
    let j = int_part (unsigned b) in
    let g = frac_part (unsigned b) in
    rw
      (
        ha,
        hb,
        compare_magnitude-units k (is_negative a) (is_negative b) i j f g ia ib fa fb la lb,
        sign-parts_of k i f ia fa la (is_negative a),
        sign-parts_of k j g ib fb lb (is_negative b),
      )
      (ap ok (compare_parts_lem (is_negative a) (is_negative b) (units k i f) (units k j g)))
