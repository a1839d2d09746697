-- ===== src/Backfill/Runner/Frame.antt =====
-- What an attempt leaves alone: the table of jobs.
use ariai_exam.Prelude.{
  ℕ, zero, suc, ◌≡◌, ◌∙◌, refl, List, [], ◌∷◌, Option, none, some, Result, ok, err, if_split, Text,
}
use ariai_exam.Prelude.Effects.Outcomes.{Ends, Ends-and_then}
use ariai_exam.Binance.Klines.{BinanceKline, KlineError}
use ariai_exam.Db.Schema.{KlineInsert}
use ariai_exam.Db.JobRepository.{JobRow}
use ariai_exam.Backfill.GapMath.{cap_end_to_closed_candles}
use ariai_exam.Config.{base_interval_ms, symbol_name, interval_name, m1}
use ariai_exam.Backfill.Paginator.{PaginateResult, paginate_klines}
use ariai_exam.Backfill.Paginator.Frame.{paginate_klines-Keeps}
use ariai_exam.Backfill.Requests.{JobSpec}
use ariai_exam.Backfill.Runner.{
  RunError, exchange, kline_table, Progress, Ports, Attempt, raise_as, in_attempt, page_inserts,
  store_page, upsert_page, on_page, fetch_page, run_options, is_abnormal, check_stop, fetch_range,
}

module _ {ℓ κ} {S : Type ℓ} {E : Type κ} where
  -- An update changes one row where there is one, none where there is none, and none where it throws.
  abbrev pub Updates :
      (S → ℕ → Option (JobRow (RunError E)))
      → ℕ
      → (JobRow (RunError E) → JobRow (RunError E))
      → S
      → Result E ℕ × S
      → Type κ
  Updates job_of id patch s (err e, s') = job_of s' id ≡ job_of s id
  Updates job_of id patch s (ok zero, s') = (job_of s' id ≡ none) × (job_of s id ≡ none)
  Updates job_of id patch s (ok (suc n), s') =
      (row : JobRow (RunError E)) × (job_of s id ≡ some row) × (job_of s' id ≡ some (patch row))

  -- The table of jobs is changed by its updates only.
  pub record IsLawful (ports : Ports S E) (job_of : S → ℕ → Option (JobRow (RunError E)))
      : Type (ℓ ⊔ κ) where
    pub klines_keep :
        (symbol interval : Text) (from to n id : ℕ) (s : S)
        → job_of (ports.get_klines symbol interval from to n s).1 id ≡ job_of s id
    pub upsert_keeps :
        (rows : List KlineInsert) (id : ℕ) (s : S)
        → job_of (ports.upsert_many rows s).1 id ≡ job_of s id
    pub sleep_keeps : (ms id : ℕ) (s : S) → job_of (ports.sleep ms s) id ≡ job_of s id
    pub emit_keeps :
        (progress : Progress E) (id : ℕ) (s : S) → job_of (ports.emit progress s) id ≡ job_of s id
    pub updates :
        (id : ℕ) (patch : JobRow (RunError E) → JobRow (RunError E)) (s : S)
        → Updates job_of id patch s (ports.update_job id patch s)

module _ {ℓ κ} {S : Type ℓ} {E : Type κ} (ports : Ports S E)
    (job_of : S → ℕ → Option (JobRow (RunError E))) (lawful : IsLawful ports job_of)
    (job : JobSpec) where
  abbrev row_of : S → Option (JobRow (RunError E))
  row_of s = job_of s job.job_id

  -- A call that leaves the row of the job alone.
  abbrev Same {μ ν} : {F : Type μ} {A : Type ν} → S → Result F A × S → Type κ
  Same s m = Ends (λ a s'. row_of s' ≡ row_of s) (λ e s'. row_of s' ≡ row_of s) m

  Same-raise_as {μ ν ο} :
      {F : Type μ} {G : Type ν} {A : Type ο} (f : F → G) (s : S) (m : Result F A × S)
      → row_of m.1 ≡ row_of s
      → Same s (raise_as f m)
  Same-raise_as f s (ok a, s') h = h
  Same-raise_as f s (err e, s') h = h

  store_page_keeps :
      (r : Result KlineError (List KlineInsert)) (s : S) → Same s (store_page ports r s)
  store_page_keeps (err e) s = refl
  store_page_keeps (ok []) s = refl
  store_page_keeps (ok (row ∷ rows)) s =
      Same-raise_as kline_table s (ports.upsert_many (row ∷ rows) s)
        (lawful.upsert_keeps (row ∷ rows) job.job_id s)

  -- Calls of an attempt, where what is kept is what the row was at its start.
  abbrev Kept {μ} :
      {A : Type μ} → Option (JobRow (RunError E)) → Result (RunError E) A × Attempt S → Type κ
  Kept o m = Ends (λ a s'. row_of s'.world ≡ o) (λ e s'. row_of s'.world ≡ o) m

  Kept-in_attempt {μ} :
      {A : Type μ} (o : Option (JobRow (RunError E))) (n : ℕ) (s : S)
      (m : Result (RunError E) A × S)
      → row_of s ≡ o
      → Same s m
      → Kept o (in_attempt n m)
  Kept-in_attempt o n s (ok a, s') h k = k ∙ h
  Kept-in_attempt o n s (err e, s') h k = k ∙ h

  on_page_keeps :
      (o : Option (JobRow (RunError E))) (page : List BinanceKline) (a : Attempt S)
      → row_of a.world ≡ o
      → Kept o (on_page ports job page a)
  on_page_keeps o page a h =
      Ends-and_then (λ n a'. row_of a'.world ≡ o) (λ u a'. row_of a'.world ≡ o)
        (λ e a'. row_of a'.world ≡ o) (in_attempt a.written (upsert_page ports job page a.world)) _
        (Kept-in_attempt o a.written a.world (upsert_page ports job page a.world) h
          (store_page_keeps (page_inserts job (ports.now_ms a.world) page) a.world))
        (λ n a' k. lawful.emit_keeps _ job.job_id a'.world ∙ k)

  fetch_page_keeps :
      (o : Option (JobRow (RunError E))) (from to n : ℕ) (a : Attempt S)
      → row_of a.world ≡ o
      → Kept o (fetch_page ports job from to n a)
  fetch_page_keeps o from to n a h =
      let symbol = symbol_name job.symbol in
      let interval = interval_name m1 in
      Kept-in_attempt o a.written a.world
        (raise_as exchange (ports.get_klines symbol interval from to n a.world)) h
        (Same-raise_as exchange a.world (ports.get_klines symbol interval from to n a.world)
          (lawful.klines_keep symbol interval from to n job.job_id a.world))

  check_stop_keeps :
      (o : Option (JobRow (RunError E))) (m : Result (RunError E) PaginateResult × Attempt S)
      → Kept o m
      → Ends (λ n s'. row_of s' ≡ o) (λ e s'. row_of s' ≡ o) (check_stop ports m)
  check_stop_keeps o (err e, a) h = h
  check_stop_keeps o (ok r, a) h =
      if_split
        (λ (m : Result (RunError E) ℕ × S). Ends (λ n s'. row_of s' ≡ o) (λ e s'. row_of s' ≡ o) m)
        (is_abnormal r.stop_reason) (λ _. h) (λ _. h)

  pub fetch_range_keeps :
      (o : Option (JobRow (RunError E))) (s : S)
      → row_of s ≡ o
      → Ends (λ n s'. row_of s' ≡ o) (λ e s'. row_of s' ≡ o) (fetch_range ports job s)
  fetch_range_keeps o s h =
      let end = cap_end_to_closed_candles job.range.end_ms (ports.now_ms s) base_interval_ms in
      check_stop_keeps o
        (paginate_klines (run_options ports job end) (record { world = s; written = 0 }))
        (paginate_klines-Keeps (run_options ports job end) (λ a. row_of a.world ≡ o)
          (fetch_page_keeps o) (on_page_keeps o) (record { world = s; written = 0 }) h)
