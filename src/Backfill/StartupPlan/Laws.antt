-- ===== src/Backfill/StartupPlan/Laws.antt =====
-- What a plan of the start asks for.
use ariai_exam.Prelude.{
  ℕ, ◌+◌, ◌-◌, ◌*◌, ◌≤◌, ◌<◌, ◌≡◌, refl, arith, Option, none, some, leb, if_split, max,
}
use ariai_exam.Backfill.GapMath.{floor_to_step}
use ariai_exam.Backfill.StartupPlan.{
  StartupPlan, day_ms, starts_late, latest_or, resolve_startup_plan,
}

module _ (latest earliest : Option ℕ) (now step days : ℕ) where
  abbrev pub Planned : Option StartupPlan → Type 0
  Planned none = Unit {0}
  Planned (some plan) =
      (plan.window_start_ms < plan.window_end_ms)
      × (plan.window_end_ms ≡ floor_to_step now step)
      × (floor_to_step now step - days * day_ms ≤ plan.window_start_ms)

  -- A plan asks for a window that is not empty, that ends with the last closed candle, and that reaches back
  -- over the days of the bootstrap at most.
  pub resolve_startup_plan_bounded : Planned (resolve_startup_plan latest earliest now step days)
  unfolding resolve_startup_plan
  resolve_startup_plan_bounded =
      let end = floor_to_step now step in
      let oldest = end - days * day_ms in
      let start = max (latest_or latest oldest + step) oldest in
      if_split Planned (leb end oldest) (λ _. tt)
        (λ some_room.
          if_split Planned (starts_late earliest oldest)
            (λ _. (ground (arith, some_room), refl, omega arith))
            (λ _.
              if_split Planned (leb end start) (λ _. tt)
                (λ behind. (ground (arith, behind), refl, omega arith))))
