-- ===== src/Db/Chunk.antt =====
-- backend/src/db/chunk.ts: batches that stay within the bind parameters of one statement.
pub mod Laws
mod Tests
use ariai_exam.Prelude.{
  ℕ, zero, suc, ◌+◌, ◌-◌, ◌/◌, min, List, [], ◌∷◌, Option, none, some, Result, ok, err, ◌>>=◌, ltb,
  leb, ◌==◌, if◌then◌else◌, length, take, drop,
}

abbrev pub pg_max_bind_params : ℕ
pg_max_bind_params = 65_535

abbrev pub bind_param_reserve : ℕ
bind_param_reserve = 64

abbrev pub default_max_rows_per_chunk : ℕ
default_max_rows_per_chunk = 2_000

-- The options after the defaults have been filled in.
pub record ChunkSizeOptions : Type 0 where
  pub max_bind_params : ℕ
  pub reserve : ℕ
  pub max_rows : ℕ

abbrev pub default_options : ChunkSizeOptions
default_options = record {
  max_bind_params = pg_max_bind_params;
  reserve = bind_param_reserve;
  max_rows = default_max_rows_per_chunk;
}

pub data ChunkError : Type 0 where
  bad_column_count bad_max_bind_params bad_max_rows row_too_wide bad_chunk_size : ChunkError

-- `maxBindParams - reserve` may be negative in the source; its quotient is below 1 then, as it is
-- for the 0 that the subtraction of ℕ gives.
unfoldable pub calc_chunk_size : ℕ → ChunkSizeOptions → Result ChunkError ℕ
calc_chunk_size column_count o =
    if column_count == 0
    then err bad_column_count
    else if o.max_bind_params == 0
    then err bad_max_bind_params
    else if o.max_rows == 0
    then err bad_max_rows
    else let rows_by_params = (o.max_bind_params - o.reserve) / column_count in
      if ltb rows_by_params 1 then err row_too_wide else ok (min rows_by_params o.max_rows)

module _ {ℓ} {A : Type ℓ} where
  -- The `for` loop, on the rows from `offset` on. A round takes at least one row, so the number of
  -- rows bounds the rounds.
  unfoldable pub chunks_from : ℕ → List A → ℕ → List (List A)
  chunks_from zero rows chunk_size = []
  chunks_from (suc fuel) [] chunk_size = []
  chunks_from (suc fuel) (row ∷ rows) chunk_size =
      take chunk_size (row ∷ rows) ∷ chunks_from fuel (drop chunk_size (row ∷ rows)) chunk_size

  unfoldable pub chunk_rows : List A → ℕ → Result ChunkError (List (List A))
  unfolding chunks_from
  chunk_rows rows chunk_size =
      if chunk_size == 0 then err bad_chunk_size else ok (chunks_from (length rows) rows chunk_size)

  unfoldable pub chunk_by_column_count :
      List A → ℕ → ChunkSizeOptions → Result ChunkError (List (List A))
  chunk_by_column_count [] column_count o = ok []
  chunk_by_column_count (row ∷ rows) column_count o = do
    size ← calc_chunk_size column_count o
    chunk_rows (row ∷ rows) size
