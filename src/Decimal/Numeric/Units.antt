-- ===== src/Decimal/Numeric/Units.antt =====
-- What stripping and padding keep of the number that a text writes.
use native.Mathlib.Nat.{pow-succ', mul_assoc, one-le-pow}
use mathlib.Core.Path.{ap₂}
use ariai_exam.Prelude.{
  Text, ℕ, zero, suc, ◌+◌, ◌-◌, ◌*◌, ◌^◌, ◌<◌, ◌≤◌, max, ◌≡◌, ◌∙◌, refl, sym, ap, arith, Bool, true,
  false, [], ◌∷◌, ◌++◌, ◌==◌, length, Bool-cases, inl, inr, length-append, append_assoc,
}
use ariai_exam.Decimal.Digits.{all_digits, value, zeros}
use ariai_exam.Decimal.Digits.Value.{
  value-append, all_digits-append, all_digits-zeros, length-zeros,
}
use ariai_exam.Decimal.Numeric.{
  pad_end, compare_magnitude, parts_of, strip_leading, strip_trailing, starts_with, keep_before,
}
use ariai_exam.Decimal.Numeric.Magnitude.{
  order_of, order_lt, order_gt, order_eq, two_stage_lem, trichotomy, times_mono,
}

value-strip_leading : (s t : Text) → value 0 (strip_leading s ++ t) ≡ value 0 (s ++ t)
value-strip_leading [] t = refl
value-strip_leading (c ∷ s) t = elim (Bool-cases (c == b'0')) [
  | inl h ↦ rw h (value-strip_leading s t ∙ ap (λ n. value n (s ++ t)) (ground arith))
  | inr h ↦ rw h refl
]

starts_with-strip_leading : (s : Text) → starts_with b'0' (strip_leading s) ≡ false
starts_with-strip_leading [] = refl
starts_with-strip_leading (c ∷ s) = ground (arith, starts_with-strip_leading s)

all_digits-strip_leading : (s : Text) → all_digits s ≡ true → all_digits (strip_leading s) ≡ true
all_digits-strip_leading [] h = refl
all_digits-strip_leading (c ∷ s) h = ground (arith, all_digits-strip_leading s)

all_digits-strip_trailing : (s : Text) → all_digits s ≡ true → all_digits (strip_trailing s) ≡ true
all_digits-strip_trailing [] h = refl
all_digits-strip_trailing (c ∷ s) h =
    go (strip_trailing s) (all_digits-strip_trailing s (ground arith))
  where
    go : (t : Text) → all_digits t ≡ true → all_digits (keep_before (c == b'0') c t) ≡ true
    go [] ht = ground arith
    go (d ∷ t) ht = ground arith

-- What is stripped from the end is zeros.
strip_trailing_lem : (s : Text) → (j : ℕ) × (s ≡ strip_trailing s ++ zeros j)
strip_trailing_lem [] = (0, refl)
strip_trailing_lem (c ∷ s) = go (strip_trailing s) (strip_trailing_lem s)
  where
    go :
        (t : Text)
        → (j : ℕ) × (s ≡ t ++ zeros j)
        → (j : ℕ) × (c ∷ s ≡ keep_before (c == b'0') c t ++ zeros j)
    go (d ∷ t) (j, e) = (j, ap (λ u. c ∷ u) e)
    go [] (j, e) = elim (Bool-cases (c == b'0')) [
      | inl h ↦ (suc j, rw h (ground (arith, e)))
      | inr h ↦ (j, rw h (ap (λ u. c ∷ u) e))
    ]

value-zeros_behind : (n k : ℕ) → value n (zeros k) ≡ n * 10 ^ k
value-zeros_behind n zero = omega arith
value-zeros_behind n (suc k) =
    value-zeros_behind (n * 10 + (b'0' - b'0')) k
    ∙ ap (λ m. m * 10 ^ k) {x = n * 10 + (b'0' - b'0')} {y = n * 10} (omega arith)
    ∙ mul_assoc n 10 (10 ^ k)
    ∙ ap (λ p. n * p) (sym (pow-succ' 10 k))

-- Zeros at the end change the unit only.
value-behind : (s : Text) (k : ℕ) → value 0 (s ++ zeros k) ≡ value 0 s * 10 ^ k
value-behind s k = value-append 0 s (zeros k) ∙ value-zeros_behind (value 0 s) k

order_of-times : (m n p : ℕ) → 0 < p → order_of (m * p) (n * p) ≡ order_of m n
order_of-times m n p h = elim (trichotomy m n) [
  | inl lt ↦
      order_lt (m * p) (n * p) (omega (arith, times_mono (suc m) n p lt, h)) ∙ sym (order_lt m n lt)
  | inr (inl gt) ↦
      order_gt (m * p) (n * p) (omega (arith, times_mono (suc n) m p gt, h)) ∙ sym (order_gt m n gt)
  | inr (inr eq) ↦ order_eq (m * p) (n * p) (ap (λ x. x * p) eq) ∙ sym (order_eq m n eq)
]

pow-add : (a b : ℕ) → 10 ^ (a + b) ≡ 10 ^ a * 10 ^ b
pow-add zero b = ap (λ n. 10 ^ n) {x = zero + b} {y = b} (omega arith) ∙ omega arith
pow-add (suc a) b =
    ap (λ n. 10 ^ n) {x = suc a + b} {y = suc (a + b)} (omega arith)
    ∙ pow-succ' 10 (a + b)
    ∙ ap (λ p. 10 * p) (pow-add a b)
    ∙ sym (mul_assoc 10 (10 ^ a) (10 ^ b))
    ∙ ap (λ p. p * 10 ^ b) (sym (pow-succ' 10 a))

-- The number that a whole part and a fraction write, in units of 10^-k.
abbrev pub units : ℕ → Text → Text → ℕ
units k i f = value 0 (i ++ f) * 10 ^ (k - length f)

units-finer :
    (w k : ℕ) (i f : Text) → length f ≤ w → w ≤ k → units k i f ≡ units w i f * 10 ^ (k - w)
units-finer w k i f hw hk =
    ap (λ n. value 0 (i ++ f) * 10 ^ n) {x = k - length f} {y = (w - length f) + (k - w)}
      (omega arith)
    ∙ ap (λ p. value 0 (i ++ f) * p) (pow-add (w - length f) (k - w))
    ∙ sym (mul_assoc (value 0 (i ++ f)) (10 ^ (w - length f)) (10 ^ (k - w)))

value-pad_end : (w : ℕ) (i f : Text) → value 0 (i ++ pad_end w f) ≡ units w i f
value-pad_end w i f =
    ap (value 0) (sym (append_assoc i f (zeros (w - length f))))
    ∙ value-behind (i ++ f) (w - length f)

pub units-strip :
    (k : ℕ) (i f : Text) → length f ≤ k → units k (strip_leading i) (strip_trailing f) ≡ units k i f
units-strip k i f h =
    let (j, e) = strip_trailing_lem f in
    let g = strip_trailing f in
    let l : length f ≡ length g + j =
      ap length e ∙ length-append g (zeros j) ∙ ap (λ n. length g + n) (length-zeros j) in
    ap (λ n. n * 10 ^ (k - length g)) (value-strip_leading i g)
    ∙ sym (
        ap (λ u. value 0 (i ++ u) * 10 ^ (k - length f)) e
        ∙ ap (λ n. n * 10 ^ (k - length f))
            (ap (value 0) (sym (append_assoc i g (zeros j))) ∙ value-behind (i ++ g) j)
        ∙ mul_assoc (value 0 (i ++ g)) (10 ^ j) (10 ^ (k - length f))
        ∙ ap (λ p. value 0 (i ++ g) * p) (sym (pow-add j (k - length f)))
        ∙ ap (λ n. value 0 (i ++ g) * 10 ^ n) {x = j + (k - length f)} {y = k - length g}
            (omega (arith, l, h)))

length-strip_trailing : (f : Text) → length (strip_trailing f) ≤ length f
length-strip_trailing f =
    let (j, e) = strip_trailing_lem f in
    omega (arith, ap length e ∙ length-append (strip_trailing f) (zeros j))

order_of-units :
    (w k : ℕ) (i j f g : Text)
    → length f ≤ w
    → length g ≤ w
    → w ≤ k
    → order_of (units w i f) (units w j g) ≡ order_of (units k i f) (units k j g)
order_of-units w k i j f g hf hg hk =
    sym (
      order_of-times (units w i f) (units w j g) (10 ^ (k - w))
        (one-le-pow (k - w) 10 (omega arith)))
    ∙ ap₂ order_of (sym (units-finer w k i f hf hk)) (sym (units-finer w k j g hg hk))

same_width :
    (w : ℕ) (f g : Text) → length f ≤ w → length g ≤ w → length (pad_end w f) ≡ length (pad_end w g)
same_width w f g hf hg = omega (
  arith,
  length-append f (zeros (w - length f)),
  length-zeros (w - length f),
  length-append g (zeros (w - length g)),
  length-zeros (w - length g),
)

-- The magnitudes are compared as the numbers that the texts write.
pub compare_magnitude-units :
    (k : ℕ) (a b : Bool) (i j f g : Text)
    → all_digits i ≡ true
    → all_digits j ≡ true
    → all_digits f ≡ true
    → all_digits g ≡ true
    → length f ≤ k
    → length g ≤ k
    → compare_magnitude
        (parts_of a (strip_leading i) (strip_trailing f))
        (parts_of b (strip_leading j) (strip_trailing g))
      ≡ order_of (units k i f) (units k j g)
unfolding compare_magnitude
compare_magnitude-units k a b i j f g hi hj hf hg lf lg =
    let i' = strip_leading i in
    let j' = strip_leading j in
    let f' = strip_trailing f in
    let g' = strip_trailing g in
    let w = max (length f') (length g') in
    let kf = length-strip_trailing f in
    let kg = length-strip_trailing g in
    two_stage_lem i' j' (pad_end w f') (pad_end w g') (all_digits-strip_leading i hi)
      (all_digits-strip_leading j hj)
      (all_digits-append f' (zeros (w - length f')) (all_digits-strip_trailing f hf)
        (all_digits-zeros (w - length f')))
      (all_digits-append g' (zeros (w - length g')) (all_digits-strip_trailing g hg)
        (all_digits-zeros (w - length g')))
      (same_width w f' g' (omega arith) (omega arith)) (starts_with-strip_leading i)
      (starts_with-strip_leading j)
    ∙ ap₂ order_of (value-pad_end w i' f') (value-pad_end w j' g')
    ∙ order_of-units w k i' j' f' g' (omega arith) (omega arith) (omega arith)
    ∙ ap₂ order_of (units-strip k i f lf) (units-strip k j g lg)
