-- ===== src/Prelude/Effects.antt =====
-- Asynchronous code that reads and writes a state `S` and may throw an `E`: what an `await` ends with,
-- and the state that it leaves, also where it throws.
pub mod Outcomes
use ariai_exam.Prelude.Results.{Result, ok, err}

abbrev pub Eff {ℓ κ μ} : Type ℓ → Type κ → Type μ → Type (ℓ ⊔ κ ⊔ μ)
Eff S E A = S → Result E A × S

abbrev pub pure {ℓ κ μ} : {S : Type ℓ} {E : Type κ} {A : Type μ} → A → Eff S E A
pure a s = (ok a, s)

abbrev pub throw {ℓ κ μ} : {S : Type ℓ} {E : Type κ} {A : Type μ} → E → Eff S E A
throw e s = (err e, s)

-- What follows an `await`.
abbrev pub and_then {ℓ κ μ ν} :
    {S : Type ℓ} {E : Type κ} {A : Type μ} {B : Type ν}
    → Result E A × S
    → (A → Eff S E B)
    → Result E B × S
and_then (ok a, s) f = f a s
and_then (err e, s) f = (err e, s)

infixl 5 ◌>>=◌ ◌>>◌
abbrev pub ◌>>=◌ {ℓ κ μ ν} :
    {S : Type ℓ} {E : Type κ} {A : Type μ} {B : Type ν} → Eff S E A → (A → Eff S E B) → Eff S E B
◌>>=◌ m f s = and_then (m s) f

abbrev pub ◌>>◌ {ℓ κ μ} :
    {S : Type ℓ} {E : Type κ} {B : Type μ} → Eff S E (Unit {0}) → Eff S E B → Eff S E B
◌>>◌ m k = m >>= λ _. k
