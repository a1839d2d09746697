-- ===== src/Db/KlineRepository.antt =====
-- backend/src/db/repositories/kline.repository.ts: the upsert of candles. The database is a
-- parameter: it runs a statement, and `row_at` says what it holds for a conflict key.
pub mod Statements
pub mod Refinement
mod Tests
use ariai_exam.Prelude.{
  text_key, ℕ, ◌+◌, Bool, ◌&&◌, List, [], ◌∷◌, Option, none, some, Text, Result, ok, err,
  ◌>>=◌ as ◌>>>◌, leb, if◌then◌else◌,
}
use ariai_exam.Prelude.Effects.{Eff, pure, ◌>>=◌, ◌>>◌}
use ariai_exam.Db.Schema.{KlineInsert, kline_column_count}
use ariai_exam.Db.Chunk.{ChunkError, calc_chunk_size, chunk_rows, default_options}
use ariai_exam.Db.Dedupe.{try_dedupe_by}
use ariai_exam.Decimal.Numeric.{NumericError}
use ariai_exam.Db.KlineRules.{
  KlineIssue, assert_valid_klines, kline_conflict_key, count_of, pick_more_complete_kline,
}

-- What runs `INSERT … ON CONFLICT DO UPDATE` with a list of rows: the function says what becomes of a
-- stored row where the first argument is the row proposed for insertion. It gives the number of rows
-- that were written. `volume_ge` is `>=` on the column of volumes.
pub record KlineTable {ℓ κ} (S : Type ℓ) (E : Type κ) : Type (ℓ ⊔ κ) where
  pub volume_ge : Text → Text → Bool
  pub insert : (KlineInsert → KlineInsert → KlineInsert) → List KlineInsert → Eff S E ℕ
  pub row_at : S → Text → Option KlineInsert

pub data UpsertError {κ} (E : Type κ) : Type κ where
  invalid_rows : List KlineIssue → UpsertError E
  bad_volume : NumericError → UpsertError E
  bad_chunk : ChunkError → UpsertError E
  database : E → UpsertError E

-- A throw of an inner call, passed on.
abbrev pub or_throw {ℓ κ μ ν} :
    {S : Type ℓ} {E : Type κ} {F : Type μ} {A : Type ν} → (E → F) → Result E A → Eff S F A
or_throw f (ok a) s = (ok a, s)
or_throw f (err e) s = (err (f e), s)

abbrev pub wrap {ℓ κ μ ν} :
    {S : Type ℓ} {E : Type κ} {F : Type μ} {A : Type ν} → (E → F) → Result E A × S → Result F A × S
wrap f (r, s) = or_throw f r s

-- The batches, by `KLINE_CHUNK_SIZE`.
unfoldable pub kline_chunks : List KlineInsert → Result ChunkError (List (List KlineInsert))
kline_chunks deduped =
    calc_chunk_size kline_column_count default_options >>> λ size. chunk_rows deduped size

module _ {ℓ κ} {S : Type ℓ} {E : Type κ} (table : KlineTable S E) where
  open table use {volume_ge, insert}

  -- `setWhere`
  abbrev pub set_where : KlineInsert → KlineInsert → Bool
  set_where excluded stored =
      leb (count_of stored) (count_of excluded) && volume_ge excluded.volume stored.volume

  -- `set`: all columns but those of the key.
  abbrev pub updated : KlineInsert → KlineInsert → KlineInsert
  updated excluded stored = record excluded {
    symbol = stored.symbol;
    interval = stored.interval;
    open_time = stored.open_time;
  }

  abbrev pub on_conflict : KlineInsert → KlineInsert → KlineInsert
  on_conflict excluded stored =
      if set_where excluded stored then updated excluded stored else stored

  -- The `for` loop over the batches.
  unfoldable pub write_chunks : List (List KlineInsert) → ℕ → Eff S (UpsertError E) ℕ
  write_chunks [] affected = pure affected
  write_chunks (chunk ∷ chunks) affected =
      (λ s. wrap database (insert on_conflict chunk s)) >>= λ row_count.
      write_chunks chunks (affected + row_count)

  unfoldable pub upsert_many : List KlineInsert → Eff S (UpsertError E) ℕ
  upsert_many [] = pure 0
  upsert_many (row ∷ rows) = or_throw invalid_rows (assert_valid_klines (row ∷ rows)) >>= λ _.
      or_throw bad_volume (try_dedupe_by kline_conflict_key pick_more_complete_kline (row ∷ rows))
      >>= λ deduped. or_throw bad_chunk (kline_chunks deduped) >>= λ chunks. write_chunks chunks 0
