-- ===== src/Backfill/Paginator/Frame.antt =====
-- What both callbacks keep, the pagination keeps, however it ends.
use ariai_exam.Prelude.{
  ℕ, zero, suc, ◌+◌, List, [], ◌∷◌, Option, none, some, Result, ltb, leb, filter, length, if_split,
  ◌-◌,
}
use ariai_exam.Prelude.Effects.{Eff}
use ariai_exam.Prelude.Effects.Outcomes.{Ends, Ends-and_then}
use ariai_exam.Backfill.Paginator.{
  PaginateOptions, PaginateResult, in_range, last_open_time, next_cursor, deliver, advance,
  consume_page, paginate_loop, paginate_klines,
}

module _ {ℓ κ μ ν} {S : Type ℓ} {E : Type κ} {T : Type μ} (opts : PaginateOptions S E T)
    (I : S → Type ν)
    (fetch_keeps : (from to n : ℕ) (s : S)
      → I s
      → Ends (λ page s'. I s') (λ e s'. I s') (opts.fetch_page from to n s))
    (page_keeps : (page : List T) (s : S)
      → I s
      → Ends (λ u s'. I s') (λ e s'. I s') (opts.on_page page s)) where
  abbrev Keeps {ο} : {A : Type ο} → Result E A × S → Type ν
  Keeps m = Ends (λ a s'. I s') (λ e s'. I s') m

  deliver-Keeps : (page : List T) (s : S) → I s → Keeps (deliver opts page s)
  deliver-Keeps [] s i = i
  deliver-Keeps (row ∷ rows) s i = page_keeps (row ∷ rows) s i

  advance-Keeps :
      (continue : ℕ → ℕ → Eff S E PaginateResult) (cursor pages rows : ℕ) (o : Option ℕ) (s : S)
      → ((c r : ℕ) (s' : S) → I s' → Keeps (continue c r s'))
      → I s
      → Keeps (advance opts continue cursor pages rows o s)
  advance-Keeps continue cursor pages rows none s next i = i
  advance-Keeps continue cursor pages rows (some c) s next i = next c rows s i

  consume_page-Keeps :
      (continue : ℕ → ℕ → Eff S E PaginateResult) (cursor pages rows : ℕ) (page : List T) (s : S)
      → ((c r : ℕ) (s' : S) → I s' → Keeps (continue c r s'))
      → I s
      → Keeps (consume_page opts continue cursor pages rows page s)
  unfolding consume_page
  consume_page-Keeps continue cursor pages rows [] s next i = i
  consume_page-Keeps continue cursor pages rows (first ∷ others) s next i =
      let inside = filter (in_range opts cursor) (first ∷ others) in
      Ends-and_then (λ u s'. I s') (λ a s'. I s') (λ e s'. I s') (deliver opts inside s) _
        (deliver-Keeps inside s i)
        (λ u s' i'.
          advance-Keeps continue cursor pages (rows + length inside)
            (next_cursor opts cursor (last_open_time opts first others)) s' next i')

  paginate_loop-Keeps :
      (left cursor pages rows : ℕ) (s : S)
      → I s
      → Keeps (paginate_loop opts left cursor pages rows s)
  unfolding paginate_loop
  paginate_loop-Keeps zero cursor pages rows s i = i
  paginate_loop-Keeps (suc left) cursor pages rows s i =
      if_split (λ (m : Eff S E PaginateResult). Keeps (m s)) (ltb cursor opts.end_ms)
        (λ _.
          if_split (λ (m : Eff S E PaginateResult). Keeps (m s)) (leb opts.max_pages pages) (λ _. i)
            (λ _.
              Ends-and_then (λ page s'. I s') (λ a s'. I s') (λ e s'. I s')
                (opts.fetch_page cursor (opts.end_ms - 1) opts.page_limit s) _
                (fetch_keeps cursor (opts.end_ms - 1) opts.page_limit s i)
                (λ page s' i'.
                  consume_page-Keeps (λ c r. paginate_loop opts left c (pages + 1) r) cursor
                    (pages + 1) rows page s' (λ c r s2. paginate_loop-Keeps left c (pages + 1) r s2)
                    i')))
        (λ _. i)

  pub paginate_klines-Keeps : (s : S) → I s → Keeps (paginate_klines opts s)
  unfolding paginate_klines
  paginate_klines-Keeps s i = paginate_loop-Keeps (suc opts.max_pages) opts.start_ms 0 0 s i
