-- ===== src/Db/Chunk/Laws.antt =====
-- What the batches hold, how large they are, and that each fits one statement.
use mathlib.Core.List.{flatten}
use native.Mathlib.Nat.{mul-le-mul_right}
use ariai_exam.Prelude.{
  false, ◌>>=◌, ℕ, zero, suc, ◌+◌, ◌-◌, ◌*◌, ◌/◌, ◌≤◌, ◌<◌, ◌≡◌, ◌∙◌, refl, ap, arith, min, List,
  [], ◌∷◌, ◌++◌, Result, ok, err, ltb, ◌==◌, if_split, length, take, drop, take-append-drop,
  length-take, length-drop, All, ◌⊎◌,
}
use ariai_exam.Db.Chunk.{
  ChunkSizeOptions, ChunkError, calc_chunk_size, chunks_from, chunk_rows, chunk_by_column_count,
}

min-mul-le : (q m c d : ℕ) → q * c ≤ d → min q m * c ≤ d
min-mul-le q m c d h = omega (arith, h, mul-le-mul_right {m = min q m} {n = q} c (omega arith))

div-mul-le : (d c : ℕ) → 0 < c → d / c * c ≤ d
div-mul-le d c pos = grind arith

-- A quotient of a smaller number is 0.
no_quotient : (d c : ℕ) → 0 < d / c → 0 < c → ¬ (c ≤ d) → ⊥
no_quotient d c q pos h =
    omega (arith, div-mul-le d c pos, mul-le-mul_right {m = 1} {n = d / c} c q)

-- A batch of the size that is computed for `column_count` columns fits beside the reserve.
calc_chunk_size_ok :
    (column_count : ℕ) (o : ChunkSizeOptions)
    → 0 < column_count
    → column_count + o.reserve ≤ o.max_bind_params
    → 0 < o.max_rows
    → (size : ℕ) × (calc_chunk_size column_count o ≡ ok size)
      × (0 < size)
      × (size ≤ o.max_rows)
      × (size * column_count + o.reserve ≤ o.max_bind_params)
unfolding calc_chunk_size
calc_chunk_size_ok c o pos room rows =
    let usable = o.max_bind_params - o.reserve in
    let some' : 0 < usable / c = one_at_least usable c pos (omega arith) in
    (
      min (usable / c) o.max_rows,
      ground arith,
      omega arith,
      omega arith,
      omega (arith, min-mul-le (usable / c) o.max_rows c usable (div-mul-le usable c pos)),
    )
  where
    one_at_least : (d k : ℕ) → 0 < k → k ≤ d → 0 < d / k
    one_at_least d k p h = grind arith

module _ {ℓ} {A : Type ℓ} where
  flatten-chunks_from :
      (fuel : ℕ) (rows : List A) (size : ℕ)
      → 0 < size
      → length rows ≤ fuel
      → flatten (chunks_from fuel rows size) ≡ rows
  unfolding chunks_from flatten
  flatten-chunks_from zero [] size pos f = refl
  flatten-chunks_from zero (row ∷ rows) size pos f = absurd (omega arith)
  flatten-chunks_from (suc fuel) [] size pos f = refl
  flatten-chunks_from (suc fuel) (row ∷ rows) size pos f =
      ap (◌++◌ (take size (row ∷ rows))) (
        flatten-chunks_from fuel (drop size (row ∷ rows)) size pos
          (omega (arith, length-drop size (row ∷ rows))))
      ∙ take-append-drop size (row ∷ rows)

  chunks_from-sizes :
      (fuel : ℕ) (rows : List A) (size : ℕ)
      → 0 < size
      → All (λ c. (0 < length c) × (length c ≤ size)) (chunks_from fuel rows size)
  unfolding chunks_from
  chunks_from-sizes zero rows size pos = tt
  chunks_from-sizes (suc fuel) [] size pos = tt
  chunks_from-sizes (suc fuel) (row ∷ rows) size pos =
      let n = length-take size (row ∷ rows) in
      (
        (omega (arith, n), omega (arith, n)),
        chunks_from-sizes fuel (drop size (row ∷ rows)) size pos,
      )

  -- Every batch is at most as long as the size, and its parameters fit if those of the size do.
  sizes-fit :
      (size c r m : ℕ) (cs : List (List A))
      → All (λ b. (0 < length b) × (length b ≤ size)) cs
      → size * c + r ≤ m
      → All (λ b. (0 < length b) × (length b * c + r ≤ m)) cs
  sizes-fit size c r m [] a h = tt
  sizes-fit size c r m (b ∷ cs) a h = (
    (a.0.0, omega (arith, mul-le-mul_right {m = length b} {n = size} c a.0.1)),
    sizes-fit size c r m cs a.1 h,
  )

  -- Whenever one row fits, the rows are cut into batches: none is lost, repeated or moved, no batch
  -- is empty, and the parameters of each fit into one statement beside the reserve.
  pub chunk_by_column_count_fits :
      (rows : List A) (column_count : ℕ) (o : ChunkSizeOptions)
      → 0 < column_count
      → column_count + o.reserve ≤ o.max_bind_params
      → 0 < o.max_rows
      → (cs : List (List A)) × (chunk_by_column_count rows column_count o ≡ ok cs)
        × (flatten cs ≡ rows)
        × All (λ b. (0 < length b) × (length b * column_count + o.reserve ≤ o.max_bind_params)) cs
  unfolding chunk_by_column_count chunk_rows flatten
  chunk_by_column_count_fits [] c o pos room rows = ([], refl, refl, tt)
  chunk_by_column_count_fits (row ∷ rest) c o pos room rows =
      let (size, e, some', small, fits) = calc_chunk_size_ok c o pos room rows in
      let all = row ∷ rest in
      let positive : (size == 0) ≡ false = ground arith in
      (
        chunks_from (length all) all size,
        rw (e, positive) refl,
        flatten-chunks_from (length all) all size some' (omega arith),
        sizes-fit size c o.reserve o.max_bind_params (chunks_from (length all) all size)
            (chunks_from-sizes (length all) all size some') fits,
      )

  -- Some rows are refused where one statement could not hold one of them, or where the number of columns or
  -- the limit of rows is 0.
  pub chunk_by_column_count_refuses :
      (row : A) (rest : List A) (column_count : ℕ) (o : ChunkSizeOptions)
      → (o.max_bind_params < column_count + o.reserve) ⊎ (column_count ≡ 0) ⊎ (o.max_rows ≡ 0)
      → (e : ChunkError) × (chunk_by_column_count (row ∷ rest) column_count o ≡ err e)
  unfolding chunk_by_column_count calc_chunk_size
  chunk_by_column_count_refuses row rest c o h =
      let usable = o.max_bind_params - o.reserve in
      let P =
        λ (r : Result ChunkError ℕ). (e : ChunkError) × ((r >>= chunk_rows (row ∷ rest)) ≡ err e) in
      if_split P (c == 0) (λ _. (_, refl))
        (λ c0.
          if_split P (o.max_bind_params == 0) (λ _. (_, refl))
            (λ _.
              if_split P (o.max_rows == 0) (λ _. (_, refl))
                (λ r0.
                  if_split P (ltb (usable / c) 1) (λ _. (_, refl))
                    (λ q.
                      absurd (no_quotient usable c (ground arith) (ground arith) (ground arith))))))
