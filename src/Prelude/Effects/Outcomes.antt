-- ===== src/Prelude/Effects/Outcomes.antt =====
-- What holds where code ends: of its value and the state that it leaves, or of its error and that state.
use ariai_exam.Prelude.Results.{Result, ok, err}
use ariai_exam.Prelude.Effects.{and_then}

abbrev pub Ends {ℓ κ μ ν} :
    {S : Type ℓ} {E : Type κ} {A : Type μ}
    → (A → S → Type ν)
    → (E → S → Type ν)
    → Result E A × S
    → Type ν
Ends P R (ok a, s) = P a s
Ends P R (err e, s) = R e s

module _ {ℓ κ μ ν} {S : Type ℓ} {E : Type κ} {A : Type μ} where
  -- What follows an `await` begins where its value is, and is skipped where it throws.
  pub Ends-and_then {ο} :
      {B : Type ο} (P : A → S → Type ν) (Q : B → S → Type ν) (R : E → S → Type ν)
      (m : Result E A × S) (f : A → S → Result E B × S)
      → Ends P R m
      → ((a : A) (s : S) → P a s → Ends Q R (f a s))
      → Ends Q R (and_then m f)
  Ends-and_then P Q R (ok a, s) f h g = g a s h
  Ends-and_then P Q R (err e, s) f h g = h

  -- What holds at an end, from what is known of it.
  pub Ends-map :
      (P Q : A → S → Type ν) (R T : E → S → Type ν) (m : Result E A × S)
      → Ends P R m
      → ((a : A) (s : S) → P a s → Q a s)
      → ((e : E) (s : S) → R e s → T e s)
      → Ends Q T m
  Ends-map P Q R T (ok a, s) h p r = p a s h
  Ends-map P Q R T (err e, s) h p r = r e s h
