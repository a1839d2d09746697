-- ===== src/Decimal/Numeric/Magnitude.antt =====
-- Texts of digits are ordered as their values are.
use native.Mathlib.Nat.{pow-succ', pow-le-pow_right}
use ariai_exam.Prelude.{
  Text, text_eq, text_eq_iff, ℕ, suc, ◌+◌, ◌-◌, ◌*◌, ◌^◌, ◌<◌, ◌≤◌, ◌≡◌, ◌∙◌, refl, sym, ap, arith,
  true, false, [], ◌∷◌, ◌++◌, ltb, ◌==◌, length, if◌then◌else◌, Bool-cases, inl, inr, not, ltb→lt,
  ◌⊎◌,
}
use ariai_exam.Decimal.Digits.{is_digit, all_digits, value}
use ariai_exam.Decimal.Digits.Value.{value-append}
use ariai_exam.Decimal.Numeric.{Order, less, equal, greater, text_lt, text_order, starts_with}

-- The order of two numbers.
abbrev pub order_of : ℕ → ℕ → Order
order_of m n = if m == n then equal else if ltb m n then less else greater

digit_le : (c : ℕ) → is_digit c ≡ true → c - b'0' ≤ 9
digit_le c h = ground arith

pub times_mono : (a b p : ℕ) → a ≤ b → a * p ≤ b * p
times_mono a b p h = grind arith

one_more :
    (n d p v : ℕ)
    → d ≤ 9
    → ((n * 10 + d) * p ≤ v) × (v < suc (n * 10 + d) * p)
    → (n * (10 * p) ≤ v) × (v < suc n * (10 * p))
one_more n d p v h b = grind (arith, times_mono (suc d) 10 p (omega arith))

-- Digits behind `n` add less than one unit of `n`.
value-bounds :
    (n : ℕ) (s : Text)
    → all_digits s ≡ true
    → (n * 10 ^ length s ≤ value n s) × (value n s < suc n * 10 ^ length s)
value-bounds n [] h = (omega arith, omega arith)
value-bounds n (c ∷ s) h = rw (pow-succ' 10 (length s)) (
    one_more n (c - b'0') (10 ^ length s) (value (n * 10 + (c - b'0')) s)
      (digit_le c (ground arith)) (value-bounds (n * 10 + (c - b'0')) s (ground arith)))

value-lt :
    (m n : ℕ) (s t : Text)
    → all_digits s ≡ true
    → all_digits t ≡ true
    → length s ≡ length t
    → m < n
    → value m s < value n t
value-lt m n s t hs ht h lt =
    let u = (value-bounds m s hs).1 in
    let l : n * 10 ^ length s ≤ value n t = rw h (value-bounds n t ht).0 in
    omega (arith, u, l, times_mono (suc m) n (10 ^ length s) lt)

pub order_lt : (m n : ℕ) → m < n → order_of m n ≡ less
order_lt m n h = ground arith

pub order_gt : (m n : ℕ) → n < m → order_of m n ≡ greater
order_gt m n h = ground arith

pub order_eq : (m n : ℕ) → m ≡ n → order_of m n ≡ equal
order_eq m n h = ground arith

pub trichotomy : (m n : ℕ) → (m < n) ⊎ ((n < m) ⊎ (m ≡ n))
trichotomy m n = elim (Bool-cases (ltb m n)) [
  | inl h ↦ inl (ltb→lt m n h)
  | inr h ↦ elim (Bool-cases (ltb n m)) [
    | inl g ↦ inr (inl (ltb→lt n m g))
    | inr g ↦ inr (inr (ground arith))
  ]
]

first_lt : (c d : ℕ) (s t : Text) → c < d → text_order (c ∷ s) (d ∷ t) ≡ less
first_lt c d s t h = ground arith

first_gt : (c d : ℕ) (s t : Text) → d < c → text_order (c ∷ s) (d ∷ t) ≡ greater
first_gt c d s t h = ground arith

first_eq : (c d : ℕ) (s t : Text) → c ≡ d → text_order (c ∷ s) (d ∷ t) ≡ text_order s t
first_eq c d s t h = ground arith

head_digit : (c : ℕ) (s : Text) → all_digits (c ∷ s) ≡ true → b'0' ≤ c
head_digit c s h = ground arith

tail_digits : (c : ℕ) (s : Text) → all_digits (c ∷ s) ≡ true → all_digits s ≡ true
tail_digits c s h = ground arith

-- Digits of one length, behind the same number, are ordered as their values are.
pub text_order-value :
    (n : ℕ) (s t : Text)
    → all_digits s ≡ true
    → all_digits t ≡ true
    → length s ≡ length t
    → text_order s t ≡ order_of (value n s) (value n t)
text_order-value n [] [] hs ht h = sym (order_eq n n refl)
text_order-value n [] (d ∷ t) hs ht h = absurd (omega arith)
text_order-value n (c ∷ s) [] hs ht h = absurd (omega arith)
text_order-value n (c ∷ s) (d ∷ t) hs ht h =
    let ts = tail_digits c s hs in
    let tt' = tail_digits d t ht in
    let l : length s ≡ length t = omega arith in
    let hc = head_digit c s hs in
    let hd = head_digit d t ht in
    elim (trichotomy c d) [
      | inl lt ↦
          first_lt c d s t lt
          ∙ sym (
              order_lt _ _
                (value-lt (n * 10 + (c - b'0')) (n * 10 + (d - b'0')) s t ts tt' l (omega arith)))
      | inr (inl gt) ↦
          first_gt c d s t gt
          ∙ sym (
              order_gt _ _ (
                value-lt (n * 10 + (d - b'0')) (n * 10 + (c - b'0')) t s tt' ts (sym l)
                  (omega arith)))
      | inr (inr eq) ↦
          first_eq c d s t eq
          ∙ text_order-value (n * 10 + (c - b'0')) s t ts tt' l
          ∙ ap (λ e. order_of (value (n * 10 + (c - b'0')) s) (value (n * 10 + (e - b'0')) t)) eq
    ]

-- A text without a zero in front is of greater value than every shorter one.
value-shorter :
    (s t : Text)
    → all_digits s ≡ true
    → all_digits t ≡ true
    → starts_with b'0' t ≡ false
    → length s < length t
    → value 0 s < value 0 t
value-shorter s [] hs ht hz h = absurd (omega arith)
value-shorter s (d ∷ t) hs ht hz h =
    let hd = head_digit d t ht in
    let n = 0 * 10 + (d - b'0') in
    let one : 1 ≤ n = ground arith in
    let below = (value-bounds 0 s hs).1 in
    let above : n * 10 ^ length t ≤ value 0 (d ∷ t) = (value-bounds n t (tail_digits d t ht)).0 in
    omega (
      arith,
      below,
      above,
      times_mono 1 n (10 ^ length t) one,
      pow-le-pow_right {n = 10} (omega arith) {i = length s} {j = length t} (omega arith),
    )

-- Whole parts without a zero in front and fractions of one length are ordered as the numbers that
-- they spell together.
abbrev two_stage : Text → Text → Text → Text → Order
two_stage i j f g =
    if not (length i == length j)
    then (if ltb (length i) (length j) then less else greater)
    else if not (text_eq i j)
    then (if text_lt i j then less else greater)
    else text_order f g

module _ (i j f g : Text) where
  two_stage_shorter : length i < length j → two_stage i j f g ≡ less
  two_stage_shorter h = ground arith

  two_stage_longer : length j < length i → two_stage i j f g ≡ greater
  two_stage_longer h = ground arith

  two_stage_less : length i ≡ length j → text_order i j ≡ less → two_stage i j f g ≡ less
  two_stage_less h o = ground arith

  two_stage_greater : length i ≡ length j → text_order i j ≡ greater → two_stage i j f g ≡ greater
  two_stage_greater h o = ground arith

  two_stage_equal :
      length i ≡ length j → text_order i j ≡ equal → (two_stage i j f g ≡ text_order f g) × (i ≡ j)
  two_stage_equal h o = ground (arith, text_eq_iff i j)

module _ (i j f g : Text) (hi : all_digits i ≡ true) (hj : all_digits j ≡ true)
    (hf : all_digits f ≡ true) (hg : all_digits g ≡ true) (h : length f ≡ length g) where
  behind_lt : value 0 i < value 0 j → less ≡ order_of (value 0 (i ++ f)) (value 0 (j ++ g))
  behind_lt lt =
      rw (value-append 0 i f, value-append 0 j g)
        (sym (order_lt _ _ (value-lt (value 0 i) (value 0 j) f g hf hg h lt)))

  behind_gt : value 0 j < value 0 i → greater ≡ order_of (value 0 (i ++ f)) (value 0 (j ++ g))
  behind_gt gt =
      rw (value-append 0 i f, value-append 0 j g)
        (sym (order_gt _ _ (value-lt (value 0 j) (value 0 i) g f hg hf (sym h) gt)))

  behind_eq : i ≡ j → text_order f g ≡ order_of (value 0 (i ++ f)) (value 0 (j ++ g))
  behind_eq eq =
      rw (value-append 0 i f, value-append 0 j g, eq) (text_order-value (value 0 j) f g hf hg h)

  pub two_stage_lem :
      starts_with b'0' i ≡ false
      → starts_with b'0' j ≡ false
      → two_stage i j f g ≡ order_of (value 0 (i ++ f)) (value 0 (j ++ g))
  two_stage_lem zi zj = elim (trichotomy (length i) (length j)) [
    | inl lt ↦ two_stage_shorter i j f g lt ∙ behind_lt (value-shorter i j hi hj zj lt)
    | inr (inl gt) ↦ two_stage_longer i j f g gt ∙ behind_gt (value-shorter j i hj hi zi gt)
    | inr (inr eq) ↦
        let o = text_order-value 0 i j hi hj eq in
        elim (trichotomy (value 0 i) (value 0 j)) [
          | inl lt ↦ two_stage_less i j f g eq (o ∙ order_lt _ _ lt) ∙ behind_lt lt
          | inr (inl gt) ↦ two_stage_greater i j f g eq (o ∙ order_gt _ _ gt) ∙ behind_gt gt
          | inr (inr same) ↦
              let (stage, ij) = two_stage_equal i j f g eq (o ∙ order_eq _ _ same) in
              stage ∙ behind_eq ij
        ]
  ]
