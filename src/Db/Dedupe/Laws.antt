-- ===== src/Db/Dedupe/Laws.antt =====
-- One row for each key, and which one.
use mathlib.Core.Path.{subst, ap₂}
use ariai_exam.Prelude.{
  Option-cases, ◌≡◌, ◌∙◌, refl, ap, sym, arith, List, [], ◌∷◌, map, Option, none, some, Eq, map_get,
  map_set, map_get-map_set, map_keys, map_values, Distinct, Distinct-map_set, if◌then◌else◌,
  Bool-cases, inl, inr, All, filter,
}
use ariai_exam.Db.Dedupe.{fold_row, fold_rows, dedupe_by}

module _ {ℓ κ} {K : Type ℓ} {T : Type κ} ⦃e : Eq K⦄ (key_of : T → K) where
  -- The row that a list holds for a key.
  abbrev pub find_key : K → List T → Option T
  find_key j [] = none
  find_key j (row ∷ rows) = if e.beq (key_of row) j then some row else find_key j rows

module _ {ℓ κ} {K : Type ℓ} {T : Type κ} ⦃e : Eq K⦄ (key_of : T → K) (pick_winner : T → T → T) where
  -- The first of some rows, and then the winner of what has won so far against each row that follows.
  abbrev pub winner_from : T → List T → T
  winner_from current [] = current
  winner_from current (incoming ∷ rows) = winner_from (pick_winner current incoming) rows

  abbrev pub winner_of : List T → Option T
  winner_of [] = none
  winner_of (row ∷ rows) = some (winner_from row rows)

  -- The rows with a key, in their order.
  abbrev pub rows_with : K → List T → List T
  rows_with j rows = filter (λ row. e.beq (key_of row) j) rows

  abbrev pub winner : K → List T → Option T
  winner j rows = winner_of (rows_with j rows)

  abbrev winner_after : Option T → List T → Option T
  winner_after none rows = winner_of rows
  winner_after (some current) rows = some (winner_from current rows)

  winner_after-fold_row :
      (j : K) (current : Option T) (row : T) (rows : List T)
      → winner_after
          (if e.beq (key_of row) j then some (fold_row key_of pick_winner current row) else current)
          (rows_with j rows)
        ≡ winner_after current (rows_with j (row ∷ rows))
  winner_after-fold_row j none row rows = elim (Bool-cases (e.beq (key_of row) j)) [
    | inl hit ↦ rw hit refl
    | inr miss ↦ rw miss refl
  ]
  winner_after-fold_row j (some c) row rows = elim (Bool-cases (e.beq (key_of row) j)) [
    | inl hit ↦ rw hit refl
    | inr miss ↦ rw miss refl
  ]

  -- One row more changes what is held for its own key only.
  map_get-fold_row :
      (j : K) (m : List (K × T)) (row : T)
      → map_get j
          (map_set (key_of row) (fold_row key_of pick_winner (map_get (key_of row) m) row) m)
        ≡ (if e.beq (key_of row) j
            then some (fold_row key_of pick_winner (map_get j m) row)
            else map_get j m)
  map_get-fold_row j m row = elim (Bool-cases (e.beq (key_of row) j)) [
    | inl h ↦
        map_get-map_set (key_of row) j _ m
        ∙ rw h (
            ap (λ k. some (fold_row key_of pick_winner (map_get k m) row))
              ((e.beq_iff (key_of row) j).0 h))
    | inr h ↦ map_get-map_set (key_of row) j _ m ∙ rw h refl
  ]

  after_none : (o : Option T) → o ≡ winner_after o []
  after_none none = refl
  after_none (some c) = refl

  map_get-fold_rows :
      (j : K) (m : List (K × T)) (rows : List T)
      → map_get j (fold_rows key_of pick_winner m rows)
        ≡ winner_after (map_get j m) (rows_with j rows)
  unfolding fold_rows
  map_get-fold_rows j m [] = after_none (map_get j m)
  map_get-fold_rows j m (row ∷ rows) =
      map_get-fold_rows j
        (map_set (key_of row) (fold_row key_of pick_winner (map_get (key_of row) m) row) m) rows
      ∙ ap (λ c. winner_after c (rows_with j rows)) (map_get-fold_row j m row)
      ∙ winner_after-fold_row j (map_get j m) row rows

  -- Each value stands under its own key.
  abbrev Keyed : List (K × T) → Type ℓ
  Keyed = All (λ p. key_of p.1 ≡ p.0)

  Keyed-map_set :
      (k : K) (v : T) (m : List (K × T)) → key_of v ≡ k → Keyed m → Keyed (map_set k v m)
  unfolding map_set
  Keyed-map_set k v [] h d = (h, tt)
  Keyed-map_set k v ((i, w) ∷ m) h d = elim (Bool-cases (e.beq i k)) [
    | inl hit ↦ rw hit (h, d.1)
    | inr miss ↦ rw miss (d.0, Keyed-map_set k v m h d.1)
  ]

  Keyed-map_get : (k : K) (m : List (K × T)) (v : T) → Keyed m → map_get k m ≡ some v → key_of v ≡ k
  unfolding map_get
  Keyed-map_get k [] v d h = cc
  Keyed-map_get k ((i, w) ∷ m) v d h = elim (Bool-cases (e.beq i k)) [
    | inl hit ↦ ground (arith, e.beq_iff i k, d.0)
    | inr miss ↦ Keyed-map_get k m v d.1 (rw miss at h)
  ]

  find_key-map_values :
      (j : K) (m : List (K × T)) → Keyed m → find_key key_of j (map_values m) ≡ map_get j m
  unfolding map_get
  find_key-map_values j [] d = refl
  find_key-map_values j ((i, v) ∷ m) d = rw (d.0, find_key-map_values j m d.1)

  map_keys-map_values : (m : List (K × T)) → Keyed m → map key_of (map_values m) ≡ map_keys m
  map_keys-map_values [] d = refl
  map_keys-map_values ((i, v) ∷ m) d = ap₂ ◌∷◌ d.0 (map_keys-map_values m d.1)

  module _ (same_key : (c i : T) → key_of c ≡ key_of i → key_of (pick_winner c i) ≡ key_of i) where
    Keyed-fold_row :
        (m : List (K × T)) (row : T)
        → Keyed m
        → key_of (fold_row key_of pick_winner (map_get (key_of row) m) row) ≡ key_of row
    Keyed-fold_row m row d = elim (Option-cases (map_get (key_of row) m)) [
      | inl none' ↦ rw none' refl
      | inr (c, some') ↦ rw some' (same_key c row (Keyed-map_get (key_of row) m c d some'))
    ]

    fold_rows-Keyed :
        (m : List (K × T)) (rows : List T)
        → Keyed m
        → Distinct (map_keys m)
        → Keyed (fold_rows key_of pick_winner m rows)
          × Distinct (map_keys (fold_rows key_of pick_winner m rows))
    unfolding fold_rows
    fold_rows-Keyed m [] d u = (d, u)
    fold_rows-Keyed m (row ∷ rows) d u =
        fold_rows-Keyed
          (map_set (key_of row) (fold_row key_of pick_winner (map_get (key_of row) m) row) m) rows
          (Keyed-map_set (key_of row) _ m (Keyed-fold_row m row d) d)
          (Distinct-map_set (key_of row) _ m u)

    -- For a choice of winner that stays with the key: the result has no key twice, and for each key holds
    -- the winner of the rows that have it, each in its order against what has won before, or none where no row has it.
    pub dedupe_by_lem :
        (rows : List T)
        → Distinct (map key_of (dedupe_by key_of pick_winner rows))
          × ((k : K) → find_key key_of k (dedupe_by key_of pick_winner rows) ≡ winner k rows)
    unfolding dedupe_by map_get
    dedupe_by_lem rows =
        let (d, u) = fold_rows-Keyed [] rows tt tt in
        (
          subst Distinct (sym (map_keys-map_values _ d)) u,
          λ k. find_key-map_values k _ d ∙ map_get-fold_rows k [] rows,
        )
