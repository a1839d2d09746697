-- ===== src/Db/Dedupe/Apart.antt =====
-- Rows with no key twice, cut in two.
use ariai_exam.Prelude.{
  ◌≡◌, refl, arith, true, false, List, [], ◌∷◌, ◌++◌, map, none, some, Eq, contains, Distinct,
  if◌then◌else◌, Bool-cases, inl, inr,
}
use ariai_exam.Db.Dedupe.Laws.{find_key}

module _ {ℓ κ} {K : Type ℓ} {T : Type κ} ⦃e : Eq K⦄ (key_of : T → K) where
  contains-append :
      (k : K) (xs ys : List T)
      → contains k (map key_of (xs ++ ys))
        ≡ (if contains k (map key_of xs) then true else contains k (map key_of ys))
  contains-append k [] ys = refl
  contains-append k (x ∷ xs) ys = ground (arith, contains-append k xs ys)

  pub Distinct-append :
      (xs ys : List T)
      → Distinct (map key_of (xs ++ ys))
      → Distinct (map key_of xs) × Distinct (map key_of ys)
  Distinct-append [] ys d = (tt, d)
  Distinct-append (x ∷ xs) ys d =
      let (dx, dy) = Distinct-append xs ys d.1 in
      ((ground (arith, contains-append (key_of x) xs ys, d.0), dx), dy)

  find_key-contains :
      (k : K) (xs : List T) (row : T)
      → find_key key_of k xs ≡ some row
      → contains k (map key_of xs) ≡ true
  find_key-contains k [] row h = cc
  find_key-contains k (x ∷ xs) row h = elim (Bool-cases (e.beq (key_of x) k)) [
    | inl hit ↦ rw hit refl
    | inr miss ↦ rw miss (find_key-contains k xs row (rw miss at h))
  ]

  find_key-absent :
      (k : K) (xs : List T) → contains k (map key_of xs) ≡ false → find_key key_of k xs ≡ none
  find_key-absent k [] h = refl
  find_key-absent k (x ∷ xs) h = ground (arith, find_key-absent k xs)

  apart :
      (k : K) (xs ys : List T)
      → Distinct (map key_of (xs ++ ys))
      → contains k (map key_of xs) ≡ true
      → contains k (map key_of ys) ≡ false
  apart k [] ys d h = cc
  apart k (x ∷ xs) ys d h = elim (Bool-cases (e.beq (key_of x) k)) [
    | inl hit ↦ ground (arith, contains-append k xs ys, d.0, (e.beq_iff (key_of x) k).0 hit)
    | inr miss ↦ apart k xs ys d.1 (rw miss at h)
  ]

  -- A key that stands in the first part stands there alone.
  pub find_key-apart :
      (k : K) (xs ys : List T) (row : T)
      → Distinct (map key_of (xs ++ ys))
      → find_key key_of k xs ≡ some row
      → find_key key_of k ys ≡ none
  find_key-apart k xs ys row d h =
      find_key-absent k ys (apart k xs ys d (find_key-contains k xs row h))

  pub find_key-append :
      (k : K) (xs ys : List T)
      → find_key key_of k (xs ++ ys)
        ≡ elim (find_key key_of k xs) [ none ↦ find_key key_of k ys | some row ↦ some row ]
  find_key-append k [] ys = refl
  find_key-append k (x ∷ xs) ys = elim (Bool-cases (e.beq (key_of x) k)) [
    | inl hit ↦ rw hit refl
    | inr miss ↦ rw miss (find_key-append k xs ys)
  ]
