-- ===== src/Db/JobRepository.antt =====
-- backend/src/db/repositories/backfill-job.repository.ts: the status of the jobs. The database is a
-- parameter: `update` changes the row of an id and gives the number of rows that it changed.
use ariai_exam.Prelude.{ℕ, zero, suc, ◌+◌, Option, none, some, Result, ok, err}
use ariai_exam.Prelude.Effects.{Eff}

pub data BackfillStatus : Type 0 where
  pending running succeeded failed : BackfillStatus

-- The columns of `backfillJobs` that the transitions write. `F` is what the text of an error is made of.
pub record JobRow {ℓ} (F : Type ℓ) : Type ℓ where
  pub status : BackfillStatus
  pub rows_written : ℕ
  pub attempts : ℕ
  pub error : Option F

pub data JobError {ℓ} (E : Type ℓ) : Type ℓ where
  no_row : ℕ → BackfillStatus → JobError E
  database : E → JobError E

-- A row of jobs as `create` inserts it, with the defaults of the columns.
abbrev pub new_row {ℓ} : {F : Type ℓ} → JobRow F
new_row = record { status = pending; rows_written = 0; attempts = 0; error = none }

abbrev pub set_running {ℓ} : {F : Type ℓ} → JobRow F → JobRow F
set_running row = record row { status = running; attempts = row.attempts + 1; error = none }

abbrev pub set_succeeded {ℓ} : {F : Type ℓ} → ℕ → JobRow F → JobRow F
set_succeeded rows_written row = record row {
  status = succeeded;
  rows_written = rows_written;
  error = none;
}

abbrev pub set_failed {ℓ} : {F : Type ℓ} → F → JobRow F → JobRow F
set_failed error row = record row { status = failed; error = some error }

module _ {ℓ κ μ} {S : Type ℓ} {E : Type κ} {F : Type μ}
    (update : ℕ → (JobRow F → JobRow F) → Eff S E ℕ) where
  abbrev pub check_count : ℕ → BackfillStatus → Result E ℕ × S → Result (JobError E) (Unit {0}) × S
  check_count id next_status (err e, s) = (err (database e), s)
  check_count id next_status (ok zero, s) = (err (no_row id next_status), s)
  check_count id next_status (ok (suc n), s) = (ok tt, s)

  abbrev pub apply_status :
      ℕ → BackfillStatus → (JobRow F → JobRow F) → Eff S (JobError E) (Unit {0})
  apply_status id next_status patch s = check_count id next_status (update id patch s)

  abbrev pub mark_running : ℕ → Eff S (JobError E) (Unit {0})
  mark_running id = apply_status id running set_running

  abbrev pub mark_succeeded : ℕ → ℕ → Eff S (JobError E) (Unit {0})
  mark_succeeded id rows_written = apply_status id succeeded (set_succeeded rows_written)

  abbrev pub mark_failed : ℕ → F → Eff S (JobError E) (Unit {0})
  mark_failed id error = apply_status id failed (set_failed error)
