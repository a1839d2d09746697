-- ===== src/Backfill/StartupPlan.antt =====
-- backend/src/backfill/startup-plan.ts: what the start of the program has to fetch.
pub mod Laws
mod Tests
use ariai_exam.Prelude.{
  ℕ, ◌+◌, ◌-◌, ◌*◌, ◌||◌, Bool, true, Option, none, some, ltb, leb, if◌then◌else◌, max,
}
use ariai_exam.Backfill.GapMath.{floor_to_step}

pub data StartupReason : Type 0 where
  bootstrap gap_recovery : StartupReason

pub record StartupPlan : Type 0 where
  pub reason : StartupReason
  pub window_start_ms : ℕ
  pub window_end_ms : ℕ

abbrev pub day_ms : ℕ
day_ms = 86_400_000

-- `earliest === null || earliest > oldest`
abbrev pub starts_late : Option ℕ → ℕ → Bool
starts_late none oldest = true
starts_late (some earliest) oldest = ltb oldest earliest

abbrev pub latest_or : Option ℕ → ℕ → ℕ
latest_or none oldest = oldest
latest_or (some latest) oldest = latest

unfoldable pub resolve_startup_plan : Option ℕ → Option ℕ → ℕ → ℕ → ℕ → Option StartupPlan
resolve_startup_plan latest earliest now_ms step_ms bootstrap_days =
    let end = floor_to_step now_ms step_ms in
    let oldest = end - bootstrap_days * day_ms in
    let start = max (latest_or latest oldest + step_ms) oldest in
    if leb end oldest
    then none
    else if starts_late earliest oldest
    then some (record { reason = bootstrap; window_start_ms = oldest; window_end_ms = end })
    else if leb end start
    then none
    else some (record { reason = gap_recovery; window_start_ms = start; window_end_ms = end })
