-- ===== src/Db/Chunk/Tests.antt =====
-- Runs of chunk.ts, and its theorems at concrete rows.
use mathlib.Core.List.{flatten}
use ariai_exam.Prelude.{
  ℕ, ◌+◌, ◌*◌, ◌≤◌, ◌<◌, ◌≡◌, refl, arith, List, [], ◌∷◌, ok, err, All, length, inl,
}
use ariai_exam.Db.Chunk.{
  ChunkSizeOptions, ChunkError, default_options, calc_chunk_size, chunk_by_column_count, chunk_rows,
}
use ariai_exam.Db.Chunk.Laws.{chunk_by_column_count_fits, chunk_by_column_count_refuses}

abbrev tight : ChunkSizeOptions
tight = record { max_bind_params = 10; reserve = 1; max_rows = 100 }

abbrev rows : List ℕ
rows = 1 ∷ 2 ∷ 3 ∷ 4 ∷ 5 ∷ []

-- The 15 columns of a candle.
kline_chunk_size : calc_chunk_size 15 default_options ≡ ok 2_000
unfolding calc_chunk_size
kline_chunk_size = refl

-- Two rows of four columns fit beside the reserve, three would not.
chunks_run : chunk_by_column_count rows 4 tight ≡ ok ((1 ∷ 2 ∷ []) ∷ (3 ∷ 4 ∷ []) ∷ (5 ∷ []) ∷ [])
unfolding chunk_by_column_count calc_chunk_size chunk_rows
chunks_run = refl

chunk_by_column_count_fits_example :
    (cs : List (List ℕ)) × (chunk_by_column_count rows 4 tight ≡ ok cs)
    × (flatten cs ≡ rows)
    × All (λ b. (0 < length b) × (length b * 4 + 1 ≤ 10)) cs
chunk_by_column_count_fits_example =
    chunk_by_column_count_fits rows 4 tight (omega arith) (omega arith) (omega arith)

chunk_by_column_count_refuses_example :
    (e : ChunkError) × (chunk_by_column_count rows 10 tight ≡ err e)
chunk_by_column_count_refuses_example =
    chunk_by_column_count_refuses 1 (2 ∷ 3 ∷ 4 ∷ 5 ∷ []) 10 tight (inl (omega arith))
