-- ===== src/Prelude/Occurs.antt =====
-- What stands in a list, of elements that need no comparison.
use mathlib.Core.Path.{subst}
use mathlib.Core.Option.{some-injective}
use ariai_exam.Prelude.{
  ◌≡◌, ◌⊎◌, inl, inr, List, [], ◌∷◌, ◌++◌, some, All, Eq, map_get, map_set, Bool-cases,
}

module _ {κ} {T : Type κ} where
  abbrev pub In : T → List T → Type κ
  In t [] = ¬ Unit
  In t (row ∷ rows) = (row ≡ t) ⊎ In t rows

  pub In-left : (t : T) (xs ys : List T) → In t xs → In t (xs ++ ys)
  In-left t [] ys h = absurd (h tt)
  In-left t (x ∷ xs) ys (inl e) = inl e
  In-left t (x ∷ xs) ys (inr h) = inr (In-left t xs ys h)

  pub In-right : (t : T) (zs rows : List T) → In t rows → In t (zs ++ rows)
  In-right t [] rows h = h
  In-right t (z ∷ zs) rows h = inr (In-right t zs rows h)

  pub In-both :
      (t : T) (xs zs rows : List T) → (In t xs → In t zs) → In t (xs ++ rows) → In t (zs ++ rows)
  In-both t [] zs rows k h = In-right t zs rows h
  In-both t (x ∷ xs) zs rows k (inl e) = In-left t zs rows (k (inl e))
  In-both t (x ∷ xs) zs rows k (inr h) = In-both t xs zs rows (λ m. k (inr m)) h

  pub All-In-left : (xs zs rows : List T) → All (λ t. In t xs) zs → All (λ t. In t (xs ++ rows)) zs
  All-In-left xs [] rows h = tt
  All-In-left xs (z ∷ zs) rows h = (In-left z xs rows h.0, All-In-left xs zs rows h.1)

module _ {ℓ κ ν} {K : Type ℓ} {V : Type κ} ⦃e : Eq K⦄ (P : K × V → Type ν) where
  -- What holds of all entries of a map, where one is put in, and of one that is found.
  pub All-map_set : (k : K) (v : V) (m : List (K × V)) → P (k, v) → All P m → All P (map_set k v m)
  unfolding map_set
  All-map_set k v [] h a = (h, tt)
  All-map_set k v ((i, w) ∷ m) h a = elim (Bool-cases (e.beq i k)) [
    | inl hit ↦ rw hit (h, a.1)
    | inr miss ↦ rw miss (a.0, All-map_set k v m h a.1)
  ]

  pub All-map_get : (k : K) (v : V) (m : List (K × V)) → All P m → map_get k m ≡ some v → P (k, v)
  unfolding map_get
  All-map_get k v [] a h = cc
  All-map_get k v ((i, w) ∷ m) a h = elim (Bool-cases (e.beq i k)) [
    | inl hit ↦
        subst (λ j. P (j, v)) ((e.beq_iff i k).0 hit)
          (subst (λ x. P (i, x)) (some-injective w v (rw hit at h)) a.0)
    | inr miss ↦ All-map_get k v m a.1 (rw miss at h)
  ]
