-- ===== src/Db/Dedupe.antt =====
-- backend/src/db/dedupe.ts: folding the rows of a batch that have one conflict key. Keys are any
-- type with a comparison.
pub mod Laws
pub mod Throwing
pub mod Apart
mod Tests
use ariai_exam.Prelude.{
  ℕ, Result, ok, err, ◌>>=◌, List, [], ◌∷◌, Option, none, some, Eq, map_get, map_set, map_values,
}

module _ {ℓ κ} {K : Type ℓ} {T : Type κ} ⦃e : Eq K⦄ (key_of : T → K) (pick_winner : T → T → T) where
  -- What `byKey` holds for a key after one more row.
  abbrev pub fold_row : Option T → T → T
  fold_row none row = row
  fold_row (some current) row = pick_winner current row

  -- The `for` loop over the rows, with the map `byKey`.
  unfoldable pub fold_rows : List (K × T) → List T → List (K × T)
  fold_rows by_key [] = by_key
  fold_rows by_key (row ∷ rows) =
      let key = key_of row in
      fold_rows (map_set key (fold_row (map_get key by_key) row) by_key) rows

  unfoldable pub dedupe_by : List T → List T
  dedupe_by rows = map_values (fold_rows [] rows)

-- The default winner: the last write.
abbrev pub last_write {ℓ} : {T : Type ℓ} → T → T → T
last_write current incoming = incoming

-- The same with a choice of winner that may throw.
module _ {ℓ κ μ} {K : Type ℓ} {T : Type κ} {E : Type μ} ⦃e : Eq K⦄ (key_of : T → K)
    (pick_winner : T → T → Result E T) where
  abbrev pub try_fold_row : Option T → T → Result E T
  try_fold_row none row = ok row
  try_fold_row (some current) row = pick_winner current row

  unfoldable pub try_fold_rows : List (K × T) → List T → Result E (List (K × T))
  try_fold_rows by_key [] = ok by_key
  try_fold_rows by_key (row ∷ rows) =
      let key = key_of row in
      try_fold_row (map_get key by_key) row >>= λ winner.
      try_fold_rows (map_set key winner by_key) rows

  unfoldable pub try_dedupe_by : List T → Result E (List T)
  try_dedupe_by rows = try_fold_rows [] rows >>= λ by_key. ok (map_values by_key)

-- `KEY_SEPARATOR`, which joinKey puts between the parts of a key.
abbrev pub key_separator : ℕ
key_separator = b'|'
