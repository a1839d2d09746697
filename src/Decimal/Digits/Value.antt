-- ===== src/Decimal/Digits/Value.antt =====
-- The value of a text of digits.
use ariai_exam.Prelude.{
  Text, ℕ, zero, suc, ◌+◌, ◌-◌, ◌*◌, ◌/◌, ◌%◌, ◌<◌, ◌≡◌, ◌∙◌, refl, ap, arith, Bool, true, false,
  [], ◌∷◌, ◌++◌, ltb, length,
}
use ariai_exam.Decimal.Digits.{all_digits, value, spell, to_digits, zeros}

pub value-append : (n : ℕ) (s t : Text) → value n (s ++ t) ≡ value (value n s) t
value-append n [] t = refl
value-append n (c ∷ s) t = value-append (n * 10 + (c - b'0')) s t

pub value-zeros : (k : ℕ) (s : Text) → value 0 (zeros k ++ s) ≡ value 0 s
value-zeros zero s = refl
value-zeros (suc k) s = value-zeros k s

pub all_digits-append :
    (s t : Text) → all_digits s ≡ true → all_digits t ≡ true → all_digits (s ++ t) ≡ true
all_digits-append [] t hs ht = ht
all_digits-append (c ∷ s) t hs ht = ground (arith, all_digits-append s t)

pub all_digits-zeros : (k : ℕ) → all_digits (zeros k) ≡ true
all_digits-zeros zero = refl
all_digits-zeros (suc k) = all_digits-zeros k

pub length-zeros : (n : ℕ) → length (zeros n) ≡ n
length-zeros zero = refl
length-zeros (suc n) = omega (arith, length-zeros n)

pub value-spell : (fuel n : ℕ) (out : Text) → n < fuel → value 0 (spell fuel n out) ≡ value n out
unfolding spell
value-spell zero n out h = absurd (omega arith)
value-spell (suc fuel) n out h =
    go (ltb n 10) refl λ more. value-spell fuel (n / 10) ((b'0' + n % 10) ∷ out) (ground arith)
  where
    go :
        (b : Bool)
        → ltb n 10 ≡ b
        → (b ≡ false
            → value 0 (spell fuel (n / 10) ((b'0' + n % 10) ∷ out))
              ≡ value (n / 10) ((b'0' + n % 10) ∷ out))
        → value 0 (elim b [
          | true ↦ (b'0' + n) ∷ out
          | false ↦ spell fuel (n / 10) ((b'0' + n % 10) ∷ out)
        ])
          ≡ value n out
    go true one ih = ap (λ k. value k out) (omega arith)
    go false more ih = ih refl ∙ ap (λ k. value k out) (omega arith)

all_digits-spell :
    (fuel n : ℕ) (out : Text) → all_digits out ≡ true → all_digits (spell fuel n out) ≡ true
unfolding spell
all_digits-spell zero n out h = h
all_digits-spell (suc fuel) n out h =
    ground (arith, all_digits-spell fuel (n / 10) ((b'0' + n % 10) ∷ out))

-- `toString` writes digits that spell the number.
pub to_digits_lem : (n : ℕ) → (value 0 (to_digits n) ≡ n) × (all_digits (to_digits n) ≡ true)
unfolding to_digits
to_digits_lem n = (value-spell (suc n) n [] (omega arith), all_digits-spell (suc n) n [] refl)
