-- ===== src/Prelude/Keys.antt =====
-- Keys that can be compared, as `===` compares them, and the `Map` of JavaScript over such keys: an
-- association list in insertion order.
use Prim.Native.String.{String}
use mathlib.Core.Path.{◌≡◌, refl}
use mathlib.Core.Logic.{◌↔◌}
use mathlib.Core.Bool.{Bool, true, false}
use mathlib.Core.List.{List, [], ◌∷◌, map}
use mathlib.Core.Option.{Option, none, some}
use Prim.Native.Nat.{ℕ}
use native.Mathlib.Omega.{arith}
use text.Mathlib.Text.{◌==◌ as str_eq}
use text.Mathlib.TextEquality.{eq_iff}
use ariai_exam.Prelude.Tests.{◌==◌, ==_iff, if◌then◌else◌}

pub record Eq {ℓ} (A : Type ℓ) : Type ℓ where
  pub beq : A → A → Bool
  pub beq_iff : (a b : A) → (beq a b ≡ true) ↔ (a ≡ b)

instance abbrev pub nat_eq : Eq ℕ
nat_eq = record { beq = ◌==◌; beq_iff = ==_iff }

instance abbrev pub string_eq : Eq String
string_eq = record { beq = str_eq; beq_iff = eq_iff }

pub beq_refl {ℓ} : {K : Type ℓ} ⦃e : Eq K⦄ (k : K) → e.beq k k ≡ true
beq_refl ⦃e⦄ k = (e.beq_iff k k).1 refl

module _ {ℓ κ} {K : Type ℓ} {V : Type κ} ⦃e : Eq K⦄ where
  -- `Map.prototype.get`
  unfoldable pub map_get : K → List (K × V) → Option V
  map_get k [] = none
  map_get k ((j, v) ∷ m) = if e.beq j k then some v else map_get k m

  -- `Map.prototype.set`: a key that is there keeps its place.
  unfoldable pub map_set : K → V → List (K × V) → List (K × V)
  map_set k v [] = (k, v) ∷ []
  map_set k v ((j, w) ∷ m) = if e.beq j k then (k, v) ∷ m else (j, w) ∷ map_set k v m

  -- `Map.prototype.delete`
  unfoldable pub map_delete : K → List (K × V) → List (K × V)
  map_delete k [] = []
  map_delete k ((j, w) ∷ m) = if e.beq j k then m else (j, w) ∷ map_delete k m

  pub map_get-map_set :
      (k j : K) (v : V) (m : List (K × V))
      → map_get j (map_set k v m) ≡ (if e.beq k j then some v else map_get j m)
  unfolding map_get map_set
  map_get-map_set k j v [] = refl
  map_get-map_set k j v ((i, w) ∷ m) =
      ground (arith, e.beq_iff k j, e.beq_iff i k, e.beq_iff i j, map_get-map_set k j v m)

-- Does a key stand in a list?
abbrev pub contains {ℓ} : {K : Type ℓ} ⦃e : Eq K⦄ → K → List K → Bool
contains ⦃e⦄ k [] = false
contains ⦃e⦄ k (j ∷ ks) = if e.beq j k then true else contains k ks

-- No key stands twice.
abbrev pub Distinct {ℓ} : {K : Type ℓ} ⦃e : Eq K⦄ → List K → Type 0
Distinct [] = Unit {0}
Distinct (k ∷ ks) = (contains k ks ≡ false) × Distinct ks

-- The keys of a map, and its values, in insertion order.
abbrev pub map_keys {ℓ κ} : {K : Type ℓ} {V : Type κ} → List (K × V) → List K
map_keys m = map (λ p. p.0) m

abbrev pub map_values {ℓ κ} : {K : Type ℓ} {V : Type κ} → List (K × V) → List V
map_values m = map (λ p. p.1) m

module _ {ℓ κ} {K : Type ℓ} {V : Type κ} ⦃e : Eq K⦄ where
  contains-map_keys-map_set :
      (k j : K) (v : V) (m : List (K × V))
      → contains j (map_keys (map_set k v m))
        ≡ (if e.beq k j then true else contains j (map_keys m))
  unfolding map_set
  contains-map_keys-map_set k j v [] = refl
  contains-map_keys-map_set k j v ((i, w) ∷ m) =
      ground (arith, e.beq_iff k j, e.beq_iff i k, e.beq_iff i j, contains-map_keys-map_set k j v m)

  pub Distinct-map_set :
      (k : K) (v : V) (m : List (K × V))
      → Distinct (map_keys m)
      → Distinct (map_keys (map_set k v m))
  unfolding map_set
  Distinct-map_set k v [] d = (refl, tt)
  Distinct-map_set k v ((i, w) ∷ m) d = ground (
    arith,
    e.beq_iff i k,
    e.beq_iff k i,
    contains-map_keys-map_set k i v m,
    Distinct-map_set k v m d.1,
  )
