-- ===== src/Binance/RateLimiter/Budget.antt =====
-- Under any interleaving of calls, what the limiter grants in a window stays within the budget.
use mathlib.Core.Path.{subst₂}
use ariai_exam.Prelude.{
  ℕ, ◌+◌, ◌≤◌, ◌≡◌, ◌∙◌, refl, arith, Bool-cases, inl, inr, List, [], ◌∷◌, ◌++◌, filter, if_split,
  Option, none, some, ltb, leb, leb→le, ◌-◌,
}
use ariai_exam.Binance.RateLimiter.{
  WeightEntry, Limiter, Round, in_window, prune, used_weight, acquire_round,
  sync_server_used_weight, apply_retry_after, mark_banned, get_used_weight, get_status,
}
use ariai_exam.Binance.RateLimiter.History.{
  World, Call, acquires, syncs, retries, bans, reads_used, reads_status, after_round, step, run,
}
use ariai_exam.Binance.RateLimiter.Window.{
  spent, spent-append, spent-filter, spent-le-sum, spent_antitone,
}

-- The clock does not go back, from `now` on.
abbrev pub InOrder : ℕ → List (ℕ × Call) → Type 0
InOrder now [] = Unit {0}
InOrder now (c ∷ cs) = (now ≤ c.0) × InOrder c.0 cs

abbrev pub last : ℕ → List (ℕ × Call) → ℕ
last now [] = now
last now (c ∷ cs) = last c.0 cs

-- The entries account for every grant that a window from `now` on can hold, and no such window holds
-- more than the budget.
record Inv (now : ℕ) (s : World) : Type 0 where
  counted :
      (t : ℕ)
      → now ≤ t
      → spent s.limiter.window_ms t s.log ≤ spent s.limiter.window_ms t s.limiter.entries
  within : (t : ℕ) → now ≤ t → spent s.limiter.window_ms t s.log ≤ s.limiter.budget_per_min

module _ (before now : ℕ) (s : World) (le : before ≤ now) (v : Inv before s) where
  open s.limiter use {entries, window_ms, budget_per_min}

  later-Inv : Inv now s
  later-Inv = record {
    counted = λ t h. v.counted t (omega arith);
    within = λ t h. v.within t (omega arith);
  }

  prune-Inv : Inv now (record s { limiter = prune now s.limiter })
  unfolding prune
  prune-Inv = record {
    counted =
        λ t h. omega (arith, spent-filter window_ms now t entries h, v.counted t (omega arith));
    within = λ t h. v.within t (omega arith);
  }

  -- A grant that fits the budget beside what the pruned entries weigh.
  grant-Inv :
      (weight : ℕ)
      → used_weight (prune now s.limiter) + weight ≤ budget_per_min
      → let e : WeightEntry = record { at = now; weight = weight } in
        let l = prune now s.limiter in
        Inv now
          (record { limiter = record l { entries = l.entries ++ e ∷ [] }; log = s.log ++ e ∷ [] })
  unfolding prune used_weight
  grant-Inv weight fits =
      let e : WeightEntry = record { at = now; weight = weight } in
      record {
        counted = λ t h. omega (
          arith,
          spent-append window_ms t s.log (e ∷ []),
          spent-append window_ms t (filter (in_window window_ms now) entries) (e ∷ []),
          spent-filter window_ms now t entries h,
          v.counted t (omega arith),
        );
        within = λ t h. omega (
          arith,
          spent-append window_ms t s.log (e ∷ []),
          spent-le-sum window_ms t (e ∷ []),
          spent_antitone window_ms now t s.log h,
          v.counted now le,
          fits,
        );
      }

  -- An entry that stands for weight the server has seen only adds to the count.
  correct-Inv :
      (weight : ℕ)
      → let l = prune now s.limiter in
        Inv now (record s {
          limiter = record l { entries = l.entries ++ record { at = now; weight = weight } ∷ [] };
        })
  unfolding prune
  correct-Inv weight = record {
    counted = λ t h. omega (
      arith,
      spent-append window_ms t (filter (in_window window_ms now) entries)
          (record { at = now; weight = weight } ∷ []),
      spent-filter window_ms now t entries h,
      v.counted t (omega arith),
    );
    within = λ t h. v.within t (omega arith);
  }

  acquires-Inv : (weight : ℕ) → Inv now (step s (now, acquires weight))
  unfolding step acquire_round
  acquires-Inv weight =
      let after = λ (r : Round). Inv now (after_round weight now s r) in
      if_split after s.limiter.banned (λ _. later-Inv)
        (λ _.
          if_split after (ltb now s.limiter.paused_until) (λ _. later-Inv)
            (λ _.
              if_split after (leb (used_weight (prune now s.limiter) + weight) budget_per_min)
                (λ fits. grant-Inv weight (leb→le _ _ fits)) (λ _. prune-Inv)))

  syncs-Inv : (server : Option ℕ) → Inv now (step s (now, syncs server))
  unfolding step sync_server_used_weight
  syncs-Inv none = later-Inv
  syncs-Inv (some w) = elim (Bool-cases (ltb (used_weight (prune now s.limiter)) w)) [
    | inl more ↦ rw more (correct-Inv (w - used_weight (prune now s.limiter)))
    | inr fewer ↦ rw fewer prune-Inv
  ]

  step-Inv : (c : Call) → Inv now (step s (now, c))
  unfolding step apply_retry_after mark_banned get_used_weight get_status
  step-Inv (acquires weight) = acquires-Inv weight
  step-Inv (syncs server) = syncs-Inv server
  step-Inv (retries sec) = record { counted = later-Inv.counted; within = later-Inv.within }
  step-Inv (bans reason) = record { counted = later-Inv.counted; within = later-Inv.within }
  step-Inv reads_used = prune-Inv
  step-Inv reads_status = prune-Inv

run-Inv :
    (now : ℕ) (s : World) (cs : List (ℕ × Call))
    → InOrder now cs
    → Inv now s
    → Inv (last now cs) (run s cs)
unfolding run
run-Inv now s [] o v = v
run-Inv now s ((at, c) ∷ cs) o v = run-Inv at (step s (at, c)) cs o.1 (step-Inv now at s o.0 v c)

step_config :
    (s : World) (c : ℕ × Call)
    → ((step s c).limiter.window_ms ≡ s.limiter.window_ms)
      × ((step s c).limiter.budget_per_min ≡ s.limiter.budget_per_min)
unfolding step acquire_round sync_server_used_weight apply_retry_after mark_banned get_used_weight
    get_status
step_config s (now, acquires weight) = (ground arith, ground arith)
step_config s (now, syncs none) = (refl, refl)
step_config s (now, syncs (some w)) = (ground arith, ground arith)
step_config s (now, retries sec) = (refl, refl)
step_config s (now, bans reason) = (refl, refl)
step_config s (now, reads_used) = (refl, refl)
step_config s (now, reads_status) = (refl, refl)

run_config :
    (s : World) (cs : List (ℕ × Call))
    → ((run s cs).limiter.window_ms ≡ s.limiter.window_ms)
      × ((run s cs).limiter.budget_per_min ≡ s.limiter.budget_per_min)
unfolding run
run_config s [] = (refl, refl)
run_config s (c ∷ cs) =
    let h = step_config s c in let r = run_config (step s c) cs in (r.0 ∙ h.0, r.1 ∙ h.1)

-- After any interleaving of rounds of `acquire` and other calls, in the order of the clock, from a
-- limiter that has granted nothing: what has been granted within any window that ends now or later
-- weighs at most the budget.
pub grants_within_budget :
    (l : Limiter) (now : ℕ) (cs : List (ℕ × Call)) (t : ℕ)
    → InOrder now cs
    → last now cs ≤ t
    → spent l.window_ms t (run (record { limiter = l; log = [] }) cs).log ≤ l.budget_per_min
grants_within_budget l now cs t o h =
    let start : World = record { limiter = l; log = [] } in
    let v : Inv now start = record { counted = λ t h. omega arith; within = λ t h. omega arith } in
    let c = run_config start cs in
    subst₂ (λ w b. spent w t (run start cs).log ≤ b) c.0 c.1 ((run-Inv now start cs o v).within t h)
