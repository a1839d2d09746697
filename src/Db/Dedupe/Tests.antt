-- ===== src/Db/Dedupe/Tests.antt =====
-- Runs of dedupe.ts on rows that are a key and a value, and its theorem at one of them.
use ariai_exam.Prelude.{
  ℕ, ◌≡◌, refl, List, [], ◌∷◌, map, nat_eq, Distinct, leb, if◌then◌else◌, map_get, map_set,
}
use ariai_exam.Db.Dedupe.{dedupe_by, fold_rows, last_write}
use ariai_exam.Db.Dedupe.Laws.{find_key, winner, dedupe_by_lem}

abbrev Row : Type 0
Row = ℕ × ℕ

abbrev key_of : Row → ℕ
key_of r = r.0

-- The greater value wins.
abbrev pick : Row → Row → Row
pick c i = (i.0, if leb c.1 i.1 then i.1 else c.1)

abbrev rows : List Row
rows = (7, 1) ∷ (8, 5) ∷ (7, 3) ∷ (7, 2) ∷ []

dedupe_runs : dedupe_by key_of pick rows ≡ (7, 3) ∷ (8, 5) ∷ []
unfolding dedupe_by fold_rows map_get map_set
dedupe_runs = refl

last_write_runs : dedupe_by key_of last_write rows ≡ (7, 2) ∷ (8, 5) ∷ []
unfolding dedupe_by fold_rows map_get map_set
last_write_runs = refl

dedupe_by_lem_example :
    Distinct (map key_of (dedupe_by key_of pick rows))
    × ((k : ℕ) → find_key key_of k (dedupe_by key_of pick rows) ≡ winner key_of pick k rows)
dedupe_by_lem_example = dedupe_by_lem key_of pick (λ c i h. refl) rows
