-- ===== src/Db/Dedupe/Throwing.antt =====
-- Where the choice of winner does not throw on the rows that occur, neither does dedupeBy.
use mathlib.Core.Path.{subst}
use mathlib.Core.Option.{some-injective}
use ariai_exam.Prelude.{
  ◌≡◌, refl, Option-cases, List, [], ◌∷◌, some, Eq, map_get, map_set, map_values, Result, ok, All,
  Bool-cases, inl, inr,
}
use ariai_exam.Db.Dedupe.{
  fold_row, fold_rows, dedupe_by, try_fold_row, try_fold_rows, try_dedupe_by,
}

module _ {ℓ κ μ ν} {K : Type ℓ} {T : Type κ} {E : Type μ} ⦃e : Eq K⦄ (key_of : T → K)
    (pick : T → T → T) (try_pick : T → T → Result E T) (P : T → Type ν)
    (agree : (c i : T) → P c → P i → (try_pick c i ≡ ok (pick c i)) × P (pick c i)) where
  All-map_set :
      (k : K) (v : T) (m : List (K × T))
      → P v
      → All (λ p. P p.1) m
      → All (λ p. P p.1) (map_set k v m)
  unfolding map_set
  All-map_set k v [] hv hm = (hv, tt)
  All-map_set k v ((i, w) ∷ m) hv hm = elim (Bool-cases (e.beq i k)) [
    | inl hit ↦ rw hit (hv, hm.1)
    | inr miss ↦ rw miss (hm.0, All-map_set k v m hv hm.1)
  ]

  All-map_get : (k : K) (m : List (K × T)) (v : T) → All (λ p. P p.1) m → map_get k m ≡ some v → P v
  unfolding map_get
  All-map_get k [] v hm h = cc
  All-map_get k ((i, w) ∷ m) v hm h = elim (Bool-cases (e.beq i k)) [
    | inl hit ↦ subst P (some-injective w v (rw hit at h)) hm.0
    | inr miss ↦ All-map_get k m v hm.1 (rw miss at h)
  ]

  agree_row :
      (k : K) (m : List (K × T)) (row : T)
      → All (λ p. P p.1) m
      → P row
      → (try_fold_row key_of try_pick (map_get k m) row
          ≡ ok (fold_row key_of pick (map_get k m) row))
        × P (fold_row key_of pick (map_get k m) row)
  agree_row k m row hm hr = elim (Option-cases (map_get k m)) [
    | inl none' ↦ rw none' (refl, hr)
    | inr (c, some') ↦ rw some' (agree c row (All-map_get k m c hm some') hr)
  ]

  try_fold_rows_ok :
      (m : List (K × T)) (rows : List T)
      → All (λ p. P p.1) m
      → All P rows
      → (try_fold_rows key_of try_pick m rows ≡ ok (fold_rows key_of pick m rows))
        × All (λ p. P p.1) (fold_rows key_of pick m rows)
  unfolding try_fold_rows fold_rows
  try_fold_rows_ok m [] hm h = (refl, hm)
  try_fold_rows_ok m (row ∷ rows) hm h =
      let (same, holds) = agree_row (key_of row) m row hm h.0 in
      let (others, kept) =
        try_fold_rows_ok
          (map_set (key_of row) (fold_row key_of pick (map_get (key_of row) m) row) m) rows
          (All-map_set (key_of row) _ m holds hm) h.1 in
      (rw same others, kept)

  All-map_values : (m : List (K × T)) → All (λ p. P p.1) m → All P (map_values m)
  All-map_values [] h = tt
  All-map_values ((i, v) ∷ m) h = (h.0, All-map_values m h.1)

  -- What is left of the rows, and that it is as the rows are.
  pub try_dedupe_by_ok :
      (rows : List T)
      → All P rows
      → (try_dedupe_by key_of try_pick rows ≡ ok (dedupe_by key_of pick rows))
        × All P (dedupe_by key_of pick rows)
  unfolding try_dedupe_by dedupe_by
  try_dedupe_by_ok rows h =
      let (same, kept) = try_fold_rows_ok [] rows tt h in
      (rw same refl, All-map_values (fold_rows key_of pick [] rows) kept)
