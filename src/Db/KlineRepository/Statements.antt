-- ===== src/Db/KlineRepository/Statements.antt =====
-- The batches that the upsert sends.
use mathlib.Core.List.{flatten}
use mathlib.Core.Path.{subst}
use ariai_exam.Prelude.{
  ◌+◌, ◌*◌, ◌<◌, ◌≤◌, ◌≡◌, ◌∙◌, sym, ap, arith, List, [], ◌∷◌, map, Option, ok, Text, text_key,
  Distinct, All, length,
}
use ariai_exam.Db.Schema.{KlineInsert, kline_column_count}
use ariai_exam.Db.Chunk.{
  calc_chunk_size, chunk_rows, chunks_from, chunk_by_column_count, default_options,
  pg_max_bind_params, bind_param_reserve,
}
use ariai_exam.Db.Chunk.Laws.{chunk_by_column_count_fits}
use ariai_exam.Db.Dedupe.{dedupe_by}
use ariai_exam.Db.Dedupe.Laws.{find_key, winner, dedupe_by_lem}
use ariai_exam.Db.KlineRules.{kline_conflict_key}
use ariai_exam.Db.KlineRules.Completeness.{more_complete, more_complete_same_key}
use ariai_exam.Db.KlineRepository.{kline_chunks}

-- A batch is not empty and its parameters fit one statement.
abbrev pub FitsStatement : List KlineInsert → Type 0
FitsStatement b =
    (0 < length b) × (length b * kline_column_count + bind_param_reserve ≤ pg_max_bind_params)

-- The most complete row of a key.
abbrev pub best : Text → List KlineInsert → Option KlineInsert
best k rows = winner kline_conflict_key more_complete k rows

chunks_agree :
    (rows : List KlineInsert)
    → (cs : List (List KlineInsert))
    → chunk_by_column_count rows kline_column_count default_options ≡ ok cs
    → kline_chunks rows ≡ ok cs
unfolding kline_chunks chunk_by_column_count calc_chunk_size chunk_rows chunks_from
chunks_agree [] cs h = h
chunks_agree (row ∷ rows) cs h = h

-- What is left of a batch with candles that stand in it more than once is cut into statements that fit, in which no
-- conflict key stands twice, and which hold for each key the most complete row.
pub kline_chunks_lem :
    (rows : List KlineInsert)
    → (cs : List (List KlineInsert)) × (kline_chunks
          (dedupe_by kline_conflict_key more_complete rows)
        ≡ ok cs)
      × (flatten cs ≡ dedupe_by kline_conflict_key more_complete rows)
      × All FitsStatement cs
      × Distinct (map kline_conflict_key (flatten cs))
      × ((k : Text) → find_key kline_conflict_key k (flatten cs) ≡ best k rows)
kline_chunks_lem rows =
    let deduped = dedupe_by kline_conflict_key more_complete rows in
    let (cs, e, all', fits) =
      chunk_by_column_count_fits deduped kline_column_count default_options (omega arith)
        (omega arith) (omega arith) in
    let (distinct, found) =
      dedupe_by_lem kline_conflict_key more_complete more_complete_same_key rows in
    (
      cs,
      chunks_agree deduped cs e,
      all',
      fits,
      subst (λ xs. Distinct (map kline_conflict_key xs)) (sym all') distinct,
      λ k. ap (find_key kline_conflict_key k) all' ∙ found k,
    )
