-- ===== src/Backfill/Runner/Laws.antt =====
-- What the table of jobs says of a job whose run is over.
use mathlib.Core.Option.{some-injective}
use mathlib.Core.Path.{subst}
use ariai_exam.Prelude.{
  ℕ, zero, suc, ◌+◌, ◌*◌, ◌≤◌, ◌≡◌, ◌∙◌, ◌⊎◌, inl, inr, refl, sym, ap, arith, Option, none, some,
  Result, ok, err, if_split, ltb,
}
use ariai_exam.Prelude.Effects.{Eff, and_then}
use ariai_exam.Prelude.Effects.Outcomes.{Ends, Ends-and_then, Ends-map}
use ariai_exam.Db.JobRepository.{
  BackfillStatus, pending, running, succeeded, failed, JobRow, new_row, set_running, set_succeeded,
  set_failed, check_count, mark_running, mark_succeeded, mark_failed,
}
use ariai_exam.Backfill.Requests.{JobSpec}
use ariai_exam.Backfill.Runner.{
  RunError, job_table, unknown_cause, JobResult, Ports, raise_as, fetch_range, run_attempt,
  try_once, give_up, after_attempt, attempts_loop, run_job, pause, max_job_attempts,
  retry_base_delay_ms, emit_progress,
}
use ariai_exam.Backfill.Runner.Frame.{Updates, IsLawful, fetch_range_keeps}

-- The job has not ended, and has been started at most so many times.
abbrev pub Open {κ} : {E : Type κ} → ℕ → Option (JobRow (RunError E)) → Type κ
Open {E = E} most o =
    (row : JobRow (RunError E)) × (o ≡ some row)
    × (row.attempts ≤ most)
    × ((row.status ≡ pending) ⊎ (row.status ≡ running))

-- The job has succeeded with so many rows.
abbrev pub Succeeded {κ} : {E : Type κ} → ℕ → ℕ → Option (JobRow (RunError E)) → Type κ
Succeeded {E = E} most rows o =
    (row : JobRow (RunError E)) × (o ≡ some row)
    × (row.attempts ≤ most)
    × (row.status ≡ succeeded)
    × (row.rows_written ≡ rows)
    × (row.error ≡ none)

-- The job has failed, and its row keeps why.
abbrev pub Failed {κ} : {E : Type κ} → ℕ → RunError E → Option (JobRow (RunError E)) → Type κ
Failed {E = E} most error o =
    (row : JobRow (RunError E)) × (o ≡ some row)
    × (row.attempts ≤ most)
    × (row.status ≡ failed)
    × (row.error ≡ some error)

module _ {ℓ κ} {S : Type ℓ} {E : Type κ} (ports : Ports S E)
    (job_of : S → ℕ → Option (JobRow (RunError E))) (lawful : IsLawful ports job_of)
    (job : JobSpec) where
  abbrev pub row_of : S → Option (JobRow (RunError E))
  row_of s = job_of s job.job_id

  -- An update of the job that ends in `Q` from an open row, and leaves the row alone where it throws.
  update_Open :
      (most next' : ℕ) (status' : BackfillStatus)
      (patch : JobRow (RunError E) → JobRow (RunError E))
      (Q : Option (JobRow (RunError E)) → Type κ)
      → most ≤ next'
      → ((row : JobRow (RunError E)) → row.attempts ≤ most → Q (some (patch row)))
      → (s : S) → Open most (row_of s)
      → Ends
          (λ u s'. Q (row_of s'))
          (λ e s'. Open next' (row_of s'))
          (raise_as job_table
            (check_count ports.update_job job.job_id status' (ports.update_job job.job_id patch s)))
  update_Open most next' status' patch Q le q s (row, e, few, status) =
      go (ports.update_job job.job_id patch s) (lawful.updates job.job_id patch s)
    where
      go :
          (m : Result E ℕ × S)
          → Updates job_of job.job_id patch s m
          → Ends
              (λ u s'. Q (row_of s'))
              (λ e s'. Open next' (row_of s'))
              (raise_as job_table (check_count ports.update_job job.job_id status' m))
      go (err x, s') h = (row, h ∙ e, omega arith, status)
      go (ok zero, s') h = absurd (cc)
      go (ok (suc n), s') (other, was, is') = subst Q (sym is') (
          q other (
            omega (
              arith,
              few,
              ap (λ (r : JobRow (RunError E)). r.attempts) (some-injective other row (sym was ∙ e)),
            )))

  -- A progress is told, whatever is known of the row.
  emit-Ends {μ} :
      {A : Type μ} (Q : Option (JobRow (RunError E)) → Type κ) (R : RunError E → S → Type κ)
      (status' : BackfillStatus) (rows : ℕ) (error' : Option (RunError E))
      (m : Result (RunError E) A × S)
      → Ends (λ a s'. Q (row_of s')) R m
      → Ends (λ u s'. Q (row_of s')) R (and_then m λ a. emit_progress ports job status' rows error')
  emit-Ends Q R status' rows error' m h =
      Ends-and_then (λ a s'. Q (row_of s')) (λ u s'. Q (row_of s')) R m _ h
        λ a s' q. subst Q (sym (lawful.emit_keeps _ job.job_id s')) q

  run_attempt-Ends :
      (most : ℕ) (s : S)
      → Open most (row_of s)
      → Ends
          (λ rows s'. Open (suc most) (row_of s'))
          (λ e s'. Open (suc most) (row_of s'))
          (run_attempt ports job s)
  unfolding run_attempt
  run_attempt-Ends most s o =
      let Q = Open {E = E} (suc most) in
      Ends-and_then (λ u s'. Q (row_of s')) (λ n s'. Q (row_of s')) (λ e s'. Q (row_of s')) _ _
        (emit-Ends Q (λ e s'. Q (row_of s')) running 0 none
          (raise_as job_table (mark_running ports.update_job job.job_id s))
          (update_Open most (suc most) running set_running Q (omega arith)
            (λ row few. (set_running row, refl, omega (arith, few), inr refl)) s o))
        λ u s' q.
          Ends-map (λ n s2. row_of s2 ≡ row_of s') (λ n s2. Q (row_of s2))
            (λ e s2. row_of s2 ≡ row_of s') (λ e s2. Q (row_of s2)) (fetch_range ports job s')
            (fetch_range_keeps ports job_of lawful job (row_of s') s' refl)
            (λ n s2 k. subst Q (sym k) q) (λ e s2 k. subst Q (sym k) q)

  try_once-Ends :
      (most : ℕ) (s : S)
      → Open most (row_of s)
      → Ends
          (λ rows s'. Succeeded (suc most) rows (row_of s'))
          (λ e s'. Open (suc most) (row_of s'))
          (try_once ports job s)
  unfolding try_once
  try_once-Ends most s o =
      let R = λ (e : RunError E) (s' : S). Open {E = E} (suc most) (row_of s') in
      Ends-and_then (λ rows s'. Open (suc most) (row_of s'))
        (λ rows s'. Succeeded (suc most) rows (row_of s')) R (run_attempt ports job s) _
        (run_attempt-Ends most s o)
        λ rows s' q.
          Ends-and_then (λ u s2. Succeeded (suc most) rows (row_of s2))
            (λ n s2. Succeeded (suc most) n (row_of s2)) R _ _
            (emit-Ends (Succeeded (suc most) rows) R succeeded rows none
              (raise_as job_table (mark_succeeded ports.update_job job.job_id rows s'))
              (update_Open (suc most) (suc most) succeeded (set_succeeded rows)
                (Succeeded (suc most) rows) (omega arith)
                (λ row few. (set_succeeded rows row, refl, few, refl, refl, refl)) s' q))
            λ u s2 h. h

  -- What a result says of the row.
  abbrev pub Recorded : ℕ → JobResult E → S → Type κ
  Recorded most result s' =
      ((result.status ≡ succeeded) × Succeeded most result.rows_written (row_of s'))
      ⊎ ((result.status ≡ failed)
          × (e : RunError E) × (result.error ≡ some e)
          × Failed most e (row_of s'))

  give_up-Ends :
      (most : ℕ) (error : RunError E) (s : S)
      → Open most (row_of s)
      → Ends (Recorded most) (λ e s'. Open most (row_of s')) (give_up ports job error s)
  unfolding give_up
  give_up-Ends most error s o =
      let R = λ (e : RunError E) (s' : S). Open {E = E} most (row_of s') in
      Ends-and_then (λ u s2. Failed most error (row_of s2)) (Recorded most) R _ _
        (emit-Ends (Failed most error) R failed 0 (some error)
          (raise_as job_table (mark_failed ports.update_job job.job_id error s))
          (update_Open most most failed (set_failed error) (Failed most error) (omega arith)
            (λ row few. (set_failed error row, refl, few, refl, refl)) s o))
        λ u s2 h. inr (refl, error, refl, h)

  pause-Open :
      (most attempt : ℕ) (s : S) → Open most (row_of s) → Open most (row_of (pause ports attempt s))
  pause-Open most attempt s q =
      if_split (λ (s2 : S). Open most (row_of s2)) (ltb attempt max_job_attempts)
        (λ _.
          subst (Open most) (sym (lawful.sleep_keeps (retry_base_delay_ms * attempt) job.job_id s))
            q)
        (λ _. q)

  after_attempt-Ends :
      (continue : RunError E → Eff S (RunError E) (JobResult E)) (attempt most most' : ℕ)
      (m : Result (RunError E) ℕ × S)
      → most ≤ most'
      → ((e : RunError E) (s : S)
          → Open most (row_of s)
          → Ends (Recorded most') (λ e s'. Open most' (row_of s')) (continue e s))
      → Ends (λ rows s'. Succeeded most rows (row_of s')) (λ e s'. Open most (row_of s')) m
      → Ends
          (Recorded most')
          (λ e s'. Open most' (row_of s'))
          (after_attempt ports continue job attempt m)
  after_attempt-Ends continue attempt most most' (ok rows, s) le next (row, e, few, a, b, c) =
      inl (refl, (row, e, omega arith, a, b, c))
  after_attempt-Ends continue attempt most most' (err x, s) le next q =
      next x (pause ports attempt s) (pause-Open most attempt s q)

  attempts_loop-Ends :
      (left attempt most most' : ℕ) (error : RunError E) (s : S)
      → most + left ≤ most'
      → Open most (row_of s)
      → Ends
          (Recorded most')
          (λ e s'. Open most' (row_of s'))
          (attempts_loop ports job left attempt error s)
  unfolding attempts_loop
  attempts_loop-Ends zero attempt most most' error s le (row, e, few, status) =
      give_up-Ends most' error s (row, e, omega arith, status)
  attempts_loop-Ends (suc left) attempt most most' error s le o =
      after_attempt-Ends (λ e. attempts_loop ports job left (attempt + 1) e) attempt (suc most)
        most' (try_once ports job s) (omega arith)
        (λ e s' q. attempts_loop-Ends left (attempt + 1) (suc most) most' e s' (omega arith) q)
        (try_once-Ends most s o)

  -- Over an exchange, a table of candles, a clock and listeners that leave the table of jobs alone, and updates that
  -- change one row or none: a job that is pending and has not been tried yet is tried at most three times. Where runJob
  -- returns, its row has ended as the result says, with the rows written or with the error; where it throws, the job is
  -- still pending or running.
  pub run_job-Recorded :
      (s : S)
      → job_of s job.job_id ≡ some new_row
      → Ends
          (Recorded max_job_attempts)
          (λ e s'. Open max_job_attempts (job_of s' job.job_id))
          (run_job ports job s)
  unfolding run_job
  run_job-Recorded s fresh =
      attempts_loop-Ends max_job_attempts 1 0 max_job_attempts unknown_cause s (omega arith)
        (new_row, fresh, omega arith, inl refl)
