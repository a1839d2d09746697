-- ===== src/Decimal/Scaled/Laws.antt =====
-- What is printed is read back, and the product is exact.
use ariai_exam.Prelude.{
  Text, ℕ, zero, suc, ◌+◌, ◌-◌, ◌<◌, ◌≤◌, ◌≡◌, ◌∙◌, refl, sym, ap, arith, true, false, [], ◌∷◌,
  ◌++◌, ok, ltb, length, take, drop, length-append, append-nil, length-take, length-drop,
  take-append-drop, if◌then◌else◌,
}
use ariai_exam.Decimal.Digits.{int_part, frac_part, has_dot, all_digits, value, to_digits, zeros}
use ariai_exam.Decimal.Digits.Value.{
  value-zeros, all_digits-append, all_digits-zeros, length-zeros, to_digits_lem,
}
use ariai_exam.Decimal.Scaled.{
  ℤ, pos, negsuc, negate, ◌*ℤ◌, ScaledDecimal, unsigned_test, skip_minus, big_int, parse_decimal,
  magnitude, sign_text, put_dot, format_scaled, mul_decimal,
}

-- A text of digits with a dot and `frac` behind it, where `frac` is not empty.
abbrev joined : Text → Text → Text
joined s [] = s
joined s (c ∷ frac) = s ++ (b'.' ∷ c ∷ frac)

int_part-joined : (s frac : Text) → all_digits s ≡ true → int_part (joined s frac) ≡ s
int_part-joined [] [] h = refl
int_part-joined [] (c ∷ frac) h = refl
int_part-joined (d ∷ s) [] h = ground (arith, int_part-joined s [])
int_part-joined (d ∷ s) (c ∷ frac) h = ground (arith, int_part-joined s (c ∷ frac))

frac_part-joined : (s frac : Text) → all_digits s ≡ true → frac_part (joined s frac) ≡ frac
frac_part-joined [] [] h = refl
frac_part-joined [] (c ∷ frac) h = refl
frac_part-joined (d ∷ s) [] h = ground (arith, frac_part-joined s [])
frac_part-joined (d ∷ s) (c ∷ frac) h = ground (arith, frac_part-joined s (c ∷ frac))

has_dot-digits : (s : Text) → all_digits s ≡ true → has_dot s ≡ false
has_dot-digits [] h = refl
has_dot-digits (d ∷ s) h = ground (arith, has_dot-digits s)

has_dot-joined : (s : Text) (c : ℕ) (frac : Text) → has_dot (joined s (c ∷ frac)) ≡ true
has_dot-joined [] c frac = refl
has_dot-joined (d ∷ s) c frac = ground (arith, has_dot-joined s c frac)

unsigned_test-joined :
    (d : ℕ) (s frac : Text)
    → all_digits (d ∷ s) ≡ true
    → all_digits frac ≡ true
    → unsigned_test (joined (d ∷ s) frac) ≡ true
unsigned_test-joined d s [] hs hf =
    rw (int_part-joined (d ∷ s) [] hs, has_dot-digits (d ∷ s) hs, hs) refl
unsigned_test-joined d s (c ∷ frac) hs hf =
    rw
      (
        int_part-joined (d ∷ s) (c ∷ frac) hs,
        frac_part-joined (d ∷ s) (c ∷ frac) hs,
        has_dot-joined (d ∷ s) c frac,
        hs,
        hf,
      )
      refl

skip_minus-joined :
    (d : ℕ) (s frac : Text)
    → all_digits (d ∷ s) ≡ true
    → skip_minus (joined (d ∷ s) frac) ≡ joined (d ∷ s) frac
skip_minus-joined d s [] h = ground arith
skip_minus-joined d s (c ∷ frac) h = ground arith

big_int-digits :
    (d : ℕ) (s : Text) → all_digits (d ∷ s) ≡ true → big_int (d ∷ s) ≡ pos (value 0 (d ∷ s))
big_int-digits d s h = ground arith

module _ (d : ℕ) (s frac : Text) (hs : all_digits (d ∷ s) ≡ true)
    (hf : all_digits frac ≡ true) where
  parse_decimal-joined :
      parse_decimal (joined (d ∷ s) frac)
      ≡ ok record { digits = pos (value 0 (d ∷ s ++ frac)); scale = length frac }
  unfolding parse_decimal
  parse_decimal-joined =
      rw
        (
          skip_minus-joined d s frac hs,
          unsigned_test-joined d s frac hs hf,
          int_part-joined (d ∷ s) frac hs,
          frac_part-joined (d ∷ s) frac hs,
          big_int-digits d (s ++ frac) (all_digits-append (d ∷ s) frac hs hf),
        )
        refl

  parse_decimal-minus :
      parse_decimal (b'-' ∷ joined (d ∷ s) frac)
      ≡ ok record { digits = negate (value 0 (d ∷ s ++ frac)); scale = length frac }
  unfolding parse_decimal
  parse_decimal-minus =
      rw
        (
          unsigned_test-joined d s frac hs hf,
          int_part-joined (d ∷ s) frac hs,
          frac_part-joined (d ∷ s) frac hs,
        )
        refl

  parse_decimal-signed :
      (z : ℤ)
      → value 0 (d ∷ s ++ frac) ≡ magnitude z
      → parse_decimal (sign_text z ++ joined (d ∷ s) frac)
        ≡ ok record { digits = z; scale = length frac }
  parse_decimal-signed (pos n) h =
      parse_decimal-joined ∙ ap (λ k. ok record { digits = pos k; scale = length frac }) h
  parse_decimal-signed (negsuc n) h =
      parse_decimal-minus ∙ ap (λ k. ok record { digits = negate k; scale = length frac }) h

all_digits-take : (n : ℕ) (s : Text) → all_digits s ≡ true → all_digits (take n s) ≡ true
all_digits-take zero s h = refl
all_digits-take (suc n) [] h = refl
all_digits-take (suc n) (c ∷ s) h = ground (arith, all_digits-take n s)

all_digits-drop : (n : ℕ) (s : Text) → all_digits s ≡ true → all_digits (drop n s) ≡ true
all_digits-drop zero s h = h
all_digits-drop (suc n) [] h = refl
all_digits-drop (suc n) (c ∷ s) h = ground (arith, all_digits-drop n s)

dot_before :
    (k : ℕ) (s frac : Text)
    → length frac ≡ k
    → s ++ (if ltb 0 k then b'.' ∷ frac else []) ≡ joined s frac
dot_before k s [] h = rw (sym h) (append-nil s)
dot_before k s (c ∷ frac) h = ground (arith)

put_dot-joined :
    (k : ℕ) (s : Text)
    → k ≤ length s
    → put_dot k s ≡ joined (take (length s - k) s) (drop (length s - k) s)
put_dot-joined k s h = dot_before k _ _ (omega (arith, length-drop (length s - k) s))

parse_decimal-cut :
    (z : ℤ) (t f : Text)
    → 0 < length t
    → all_digits t ≡ true
    → all_digits f ≡ true
    → value 0 (t ++ f) ≡ magnitude z
    → parse_decimal (sign_text z ++ joined t f) ≡ ok record { digits = z; scale = length f }
parse_decimal-cut z [] f h ht hf hv = absurd (omega arith)
parse_decimal-cut z (d ∷ t) f h ht hf hv = parse_decimal-signed d t f ht hf z hv

-- A signed text of digits that are more than its scale says is read with that scale.
parse_decimal-put_dot :
    (z : ℤ) (k : ℕ) (s : Text)
    → k < length s
    → all_digits s ≡ true
    → value 0 s ≡ magnitude z
    → parse_decimal (sign_text z ++ put_dot k s) ≡ ok record { digits = z; scale = k }
parse_decimal-put_dot z k s h hs hv =
    let n = length s - k in
    ap (λ u. parse_decimal (sign_text z ++ u)) (put_dot-joined k s (omega arith))
    ∙ parse_decimal-cut z (take n s) (drop n s) (omega (arith, length-take n s))
        (all_digits-take n s hs) (all_digits-drop n s hs) (ap (value 0) (take-append-drop n s) ∙ hv)
    ∙ ap (λ j. ok record { digits = z; scale = j }) (omega (arith, length-drop n s))

-- Every number is read back, with its scale, from the text that formatScaled prints.
pub parse_decimal-format_scaled :
    (z : ℤ) (k : ℕ) → parse_decimal (format_scaled z k) ≡ ok record { digits = z; scale = k }
unfolding format_scaled
parse_decimal-format_scaled z k =
    let s = to_digits (magnitude z) in
    let n = suc k - length s in
    let (spelled, all') = to_digits_lem (magnitude z) in
    parse_decimal-put_dot z k (zeros n ++ s)
      (omega (arith, length-append (zeros n) s, length-zeros n))
      (all_digits-append (zeros n) s (all_digits-zeros n) all') (value-zeros n s ∙ spelled)

-- Where both texts are decimals, the product is a decimal text that is read as exactly the product
-- of the two numbers, with the sum of their scales.
pub mul_decimal_exact :
    (a b : Text) (pa pb : ScaledDecimal)
    → parse_decimal a ≡ ok pa
    → parse_decimal b ≡ ok pb
    → (product : Text) × (mul_decimal a b ≡ ok product)
      × (parse_decimal product
          ≡ ok record { digits = pa.digits *ℤ pb.digits; scale = pa.scale + pb.scale })
unfolding mul_decimal
mul_decimal_exact a b pa pb ha hb = (
  format_scaled (pa.digits *ℤ pb.digits) (pa.scale + pb.scale),
  rw (ha, hb) refl,
  parse_decimal-format_scaled (pa.digits *ℤ pb.digits) (pa.scale + pb.scale),
)
