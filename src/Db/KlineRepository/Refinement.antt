-- ===== src/Db/KlineRepository/Refinement.antt =====
-- What the upsert leaves in the table.
use mathlib.Core.List.{flatten}
use mathlib.Core.Path.{subst}
use ariai_exam.Prelude.{
  ℕ, ◌+◌, ◌≤◌, ◌≡◌, ◌∙◌, refl, sym, ap, arith, true, List, [], ◌∷◌, ◌++◌, map, Option, none, some,
  Result, ok, err, Text, text_key, Distinct, All, if_split, inl, inr, ◌⊎◌,
}
use ariai_exam.Db.Schema.{KlineInsert}
use ariai_exam.Db.Dedupe.Laws.{find_key}
use ariai_exam.Db.Dedupe.Throwing.{try_dedupe_by_ok}
use ariai_exam.Db.Dedupe.Apart.{Distinct-append, find_key-apart, find_key-append}
use ariai_exam.Db.KlineRules.{
  KlineIssue, kline_conflict_key, count_of, assert_valid_klines, pick_more_complete_kline,
}
use ariai_exam.Db.KlineRules.Laws.{Gate, Valid, assert_valid_klines_decides}
use ariai_exam.Db.KlineRules.Completeness.{
  NumericVolume, more_complete, more_complete_cases, pick_more_complete_kline_ok,
}
use ariai_exam.Db.KlineRepository.{KlineTable, set_where, on_conflict, write_chunks, upsert_many}
use ariai_exam.Db.KlineRepository.Statements.{FitsStatement, best, kline_chunks_lem}

-- What a key holds after a row was proposed for it, or none.
abbrev pub written :
    (KlineInsert → KlineInsert → KlineInsert)
    → Option KlineInsert
    → Option KlineInsert
    → Option KlineInsert
written f none stored = stored
written f (some row) none = some row
written f (some row) (some old) = some (f row old)

-- What the upsert asks of a row beside the gate: a volume that is a number, and values that the columns take.
abbrev pub Writable : (KlineInsert → Type 0) → KlineInsert → Type 0
Writable Takes row = NumericVolume row × Takes row

-- Of rows that the columns take, a statement that fits and has no key twice succeeds, and does to each key what its row asks for.
abbrev pub IsLawful {ℓ κ} :
    {S : Type ℓ} {E : Type κ} → (KlineInsert → Type 0) → KlineTable S E → Type (ℓ ⊔ κ)
IsLawful {S = S} Takes table =
    (f : KlineInsert → KlineInsert → KlineInsert) (rows : List KlineInsert) (s : S)
    → All (Writable Takes) rows
    → FitsStatement rows
    → Distinct (map kline_conflict_key rows)
    → (n : ℕ) × (s' : S) × (table.insert f rows s ≡ (ok n, s'))
      × ((k : Text)
          → table.row_at s' k ≡ written f (find_key kline_conflict_key k rows) (table.row_at s k))

-- The choice of the winner stays among such rows.
agree :
    (Takes : KlineInsert → Type 0) (c i : KlineInsert)
    → Writable Takes c
    → Writable Takes i
    → (pick_more_complete_kline c i ≡ ok (more_complete c i)) × Writable Takes (more_complete c i)
agree Takes c i hc hi = (pick_more_complete_kline_ok c i hc.0 hi.0, holds)
  where
    holds : Writable Takes (more_complete c i)
    holds = elim (more_complete_cases c i) [
      | inl e ↦ subst (Writable Takes) (sym e) hi
      | inr e ↦ subst (Writable Takes) (sym e) hc
    ]

All-cut :
    (P : KlineInsert → Type 0) (xs ys : List KlineInsert) → All P (xs ++ ys) → All P xs × All P ys
All-cut P [] ys h = (tt, h)
All-cut P (x ∷ xs) ys h = let (hx, hy) = All-cut P xs ys h.1 in ((h.0, hx), hy)

passes : (rows : List KlineInsert) → All Valid rows → assert_valid_klines rows ≡ ok tt
passes rows v = go (assert_valid_klines rows) refl (assert_valid_klines_decides rows)
  where
    go :
        (r : Result (List KlineIssue) (Unit {0}))
        → assert_valid_klines rows ≡ r
        → Gate r (All Valid rows)
        → assert_valid_klines rows ≡ ok tt
    go (ok tt) e g = e
    go (err issues) e g = absurd (g v)

-- What a key held stays, or gives way to a row that is no less complete.
abbrev pub KeepsUp {ℓ κ} :
    {S : Type ℓ} {E : Type κ} → KlineTable S E → Option KlineInsert → Option KlineInsert → Type 0
KeepsUp table none after = Unit
KeepsUp table (some old) none = ⊥
KeepsUp table (some old) (some new) =
    (new ≡ old) ⊎ ((count_of old ≤ count_of new) × (table.volume_ge new.volume old.volume ≡ true))

module _ {ℓ κ} {S : Type ℓ} {E : Type κ} (table : KlineTable S E) where
  written_twice :
      (f : KlineInsert → KlineInsert → KlineInsert) (xs ys : List KlineInsert) (k : Text)
      (stored : Option KlineInsert)
      → Distinct (map kline_conflict_key (xs ++ ys))
      → written f
          (find_key kline_conflict_key k ys)
          (written f (find_key kline_conflict_key k xs) stored)
        ≡ written f (find_key kline_conflict_key k (xs ++ ys)) stored
  written_twice f xs ys k stored d =
      go (find_key kline_conflict_key k xs) refl
      ∙ ap (λ o. written f o stored) (sym (find_key-append kline_conflict_key k xs ys))
    where
      go :
          (o : Option KlineInsert)
          → find_key kline_conflict_key k xs ≡ o
          → written f
              (find_key kline_conflict_key k ys)
              (written f (find_key kline_conflict_key k xs) stored)
            ≡ written f
                (elim (find_key kline_conflict_key k xs) [
                  | none ↦ find_key kline_conflict_key k ys
                  | some row ↦ some row
                ])
                stored
      go none e = rw e refl
      go (some row) e = rw (find_key-apart kline_conflict_key k xs ys row d e, e) refl

  write_chunks_lem :
      (Takes : KlineInsert → Type 0)
      → IsLawful Takes table
      → (cs : List (List KlineInsert)) (affected : ℕ) (s : S) → All (Writable Takes) (flatten cs)
      → All FitsStatement cs
      → Distinct (map kline_conflict_key (flatten cs))
      → (n : ℕ) × (s' : S) × (write_chunks table cs affected s ≡ (ok n, s'))
        × ((k : Text)
            → table.row_at s' k
              ≡ written
                  (on_conflict table)
                  (find_key kline_conflict_key k (flatten cs))
                  (table.row_at s k))
  unfolding write_chunks flatten
  write_chunks_lem Takes lawful [] affected s takes fits d = (affected, s, refl, λ k. refl)
  write_chunks_lem Takes lawful (c ∷ cs) affected s takes fits d =
      let (dc, dcs) = Distinct-append kline_conflict_key c (flatten cs) d in
      let (tc, tcs) = All-cut (Writable Takes) c (flatten cs) takes in
      let (m, s1, e1, h1) = lawful (on_conflict table) c s tc fits.0 dc in
      let (n, s2, e2, h2) = write_chunks_lem Takes lawful cs (affected + m) s1 tcs fits.1 dcs in
      (
        n,
        s2,
        rw (e1, e2) refl,
        λ k.
            h2 k
            ∙ ap (written (on_conflict table) (find_key kline_conflict_key k (flatten cs))) (h1 k)
            ∙ written_twice (on_conflict table) c (flatten cs) k (table.row_at s k) d,
      )

  -- Over a database that, of rows whose volumes are numbers and whose values its columns take, does to each key what a
  -- statement asks for, as long as the statement fits and has no key twice; and for such rows that pass the gate:
  -- upsertMany succeeds, and leaves under each key what one conditional write of the most complete of its rows leaves.
  pub upsert_many_refines :
      (Takes : KlineInsert → Type 0)
      → IsLawful Takes table
      → (rows : List KlineInsert) (s : S) → All Valid rows
      → All (Writable Takes) rows
      → (n : ℕ) × (s' : S) × (upsert_many table rows s ≡ (ok n, s'))
        × ((k : Text)
            → table.row_at s' k ≡ written (on_conflict table) (best k rows) (table.row_at s k))
  unfolding upsert_many
  upsert_many_refines Takes lawful [] s valid numeric = (0, s, refl, λ k. refl)
  upsert_many_refines Takes lawful (row ∷ rows) s valid numeric =
      let (cs, e, all', fits, d, found) = kline_chunks_lem (row ∷ rows) in
      let (deduped, kept) =
        try_dedupe_by_ok kline_conflict_key more_complete pick_more_complete_kline (Writable Takes)
          (agree Takes) (row ∷ rows) numeric in
      let (n, s', e', h) =
        write_chunks_lem Takes lawful cs 0 s (subst (All (Writable Takes)) (sym all') kept) fits
          d in
      (
        n,
        s',
        rw (passes (row ∷ rows) valid, deduped, e) e',
        λ k. h k ∙ ap (λ o. written (on_conflict table) o (table.row_at s k)) (found k),
      )

  KeepsUp-written :
      (row before : Option KlineInsert)
      → KeepsUp table before (written (on_conflict table) row before)
  KeepsUp-written none none = tt
  KeepsUp-written none (some old) = inl refl
  KeepsUp-written (some row) none = tt
  KeepsUp-written (some row) (some old) =
      if_split (λ (new : KlineInsert). KeepsUp table (some old) (some new))
        (set_where table row old) (λ h. inr (ground (arith, h), ground (arith, h))) (λ h. inl refl)

  -- Over such a database and for such rows: whatever is proposed, what is stored under a key stays as it was, or is
  -- replaced by a row with at least as many trades and a volume that is not smaller.
  pub upsert_many-KeepsUp :
      (Takes : KlineInsert → Type 0)
      → IsLawful Takes table
      → (rows : List KlineInsert) (s : S) → All Valid rows
      → All (Writable Takes) rows
      → (k : Text) → KeepsUp table (table.row_at s k) (table.row_at (upsert_many table rows s).1 k)
  upsert_many-KeepsUp Takes lawful rows s valid numeric k =
      let (n, s', e, h) = upsert_many_refines Takes lawful rows s valid numeric in
      rw (e, h k) (KeepsUp-written (best k rows) (table.row_at s k))
