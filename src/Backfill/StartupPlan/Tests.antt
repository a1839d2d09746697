-- ===== src/Backfill/StartupPlan/Tests.antt =====
-- Plans of startup-plan.ts.
use ariai_exam.Prelude.{◌≡◌, refl, none, some}
use ariai_exam.Backfill.GapMath.{floor_to_step}
use ariai_exam.Backfill.StartupPlan.{bootstrap, gap_recovery, resolve_startup_plan}
use ariai_exam.Backfill.StartupPlan.Laws.{Planned, resolve_startup_plan_bounded}

bootstrap_runs :
    resolve_startup_plan (some 172_800_000) none 172_830_000 60_000 1
    ≡ some
        (record { reason = bootstrap; window_start_ms = 86_400_000; window_end_ms = 172_800_000 })
unfolding resolve_startup_plan floor_to_step
bootstrap_runs = refl

recovery_runs :
    resolve_startup_plan (some 172_620_000) (some 60_000) 172_830_000 60_000 1
    ≡ some (record {
      reason = gap_recovery;
      window_start_ms = 172_680_000;
      window_end_ms = 172_800_000;
    })
unfolding resolve_startup_plan floor_to_step
recovery_runs = refl

resolve_startup_plan_bounded_example :
    Planned
      (some 172_620_000)
      (some 60_000)
      172_830_000
      60_000
      1
      (resolve_startup_plan (some 172_620_000) (some 60_000) 172_830_000 60_000 1)
resolve_startup_plan_bounded_example =
    resolve_startup_plan_bounded (some 172_620_000) (some 60_000) 172_830_000 60_000 1
