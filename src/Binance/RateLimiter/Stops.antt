-- ===== src/Binance/RateLimiter/Stops.antt =====
-- A 429 pauses every grant, a 418 ends them.
use Prim.Native.String.{String}
use ariai_exam.Prelude.{
  ℕ, ◌+◌, ◌*◌, ◌≤◌, ◌≡◌, ◌∙◌, sym, ap, refl, leb, arith, List, [], ◌∷◌, ◌++◌, append_assoc,
  append-nil, All, All-append, none, some, ltb, true, max, if_split,
}
use ariai_exam.Binance.RateLimiter.{
  WeightEntry, Round, prune, used_weight, acquire_round, sync_server_used_weight, apply_retry_after,
  mark_banned, get_used_weight, get_status,
}
use ariai_exam.Binance.RateLimiter.History.{
  World, Call, acquires, syncs, retries, bans, reads_used, reads_status, step, run, after_round,
}

-- What `s` has granted beyond `before`, with the least time of it.
abbrev GrantsFrom : ℕ → List WeightEntry → List WeightEntry → Type 0
GrantsFrom t before after =
    (new : List WeightEntry) × (after ≡ before ++ new) × All (λ e. t ≤ e.at) new

nothing_new : (t : ℕ) (log : List WeightEntry) → GrantsFrom t log log
nothing_new t log = ([], sym (append-nil log), tt)

GrantsFrom-le :
    (s t : ℕ) (new : List WeightEntry) → s ≤ t → All (λ e. t ≤ e.at) new → All (λ e. s ≤ e.at) new
GrantsFrom-le s t [] h a = tt
GrantsFrom-le s t (e ∷ new) h a = (omega arith, GrantsFrom-le s t new h a.1)

abbrev Pauses : World → World → Type 0
Pauses s s' =
    (s.limiter.paused_until ≤ s'.limiter.paused_until)
    × GrantsFrom s.limiter.paused_until s.log s'.log

step-Pauses : (s : World) (c : ℕ × Call) → Pauses s (step s c)
unfolding step acquire_round sync_server_used_weight apply_retry_after mark_banned get_used_weight
    get_status
step-Pauses s (now, acquires weight) =
    let after = λ (r : Round). Pauses s (after_round weight now s r) in
    let l' = prune now s.limiter in
    let none' = nothing_new s.limiter.paused_until s.log in
    if_split after s.limiter.banned (λ _. (omega arith, none'))
      (λ _.
        if_split after (ltb now s.limiter.paused_until) (λ _. (omega arith, none'))
          (λ on.
            if_split after (leb (used_weight l' + weight) l'.budget_per_min)
              (λ fits. (
                omega arith,
                (record { at = now; weight = weight } ∷ [], refl, (ground arith, tt)),
              ))
              (λ full. (omega arith, none'))))
step-Pauses s (now, syncs none) = (omega arith, nothing_new _ _)
step-Pauses s (now, syncs (some w)) = (ground arith, nothing_new _ _)
step-Pauses s (now, retries sec) = (omega arith, nothing_new _ _)
step-Pauses s (now, bans reason) = (omega arith, nothing_new _ _)
step-Pauses s (now, reads_used) = (omega arith, nothing_new _ _)
step-Pauses s (now, reads_status) = (omega arith, nothing_new _ _)

run-Pauses :
    (s : World) (cs : List (ℕ × Call)) → GrantsFrom s.limiter.paused_until s.log (run s cs).log
unfolding run
run-Pauses s [] = nothing_new _ _
run-Pauses s (c ∷ cs) =
    let (le, (new, e, a)) = step-Pauses s c in
    let (new', e', a') = run-Pauses (step s c) cs in
    (
      new ++ new',
      e' ∙ ap (λ k. k ++ new') e ∙ append_assoc s.log new new',
      All-append _ new new' a (GrantsFrom-le _ _ new' le a'),
    )

-- After a 429 with `Retry-After: sec` at `now`, whatever else is called, every further grant is at
-- least `sec` seconds (and at least one) later.
pub retry_after_holds :
    (s : World) (now sec : ℕ) (cs : List (ℕ × Call))
    → GrantsFrom (now + max sec 1 * 1_000) s.log (run (step s (now, retries (some sec))) cs).log
unfolding step apply_retry_after
retry_after_holds s now sec cs =
    let (new, e, a) = run-Pauses (step s (now, retries (some sec))) cs in
    (new, e, GrantsFrom-le _ _ new (omega arith) a)

step_banned :
    (s : World) (c : ℕ × Call)
    → s.limiter.banned ≡ true
    → ((step s c).log ≡ s.log) × ((step s c).limiter.banned ≡ true)
unfolding step acquire_round sync_server_used_weight apply_retry_after mark_banned get_used_weight
    get_status prune
step_banned s (now, acquires weight) h = ground arith
step_banned s (now, syncs none) h = (refl, h)
step_banned s (now, syncs (some w)) h = (refl, ground arith)
step_banned s (now, retries sec) h = (refl, h)
step_banned s (now, bans reason) h = (refl, refl)
step_banned s (now, reads_used) h = (refl, h)
step_banned s (now, reads_status) h = (refl, h)

run_banned :
    (s : World) (cs : List (ℕ × Call))
    → s.limiter.banned ≡ true
    → ((run s cs).log ≡ s.log) × ((run s cs).limiter.banned ≡ true)
unfolding run
run_banned s [] h = (refl, h)
run_banned s (c ∷ cs) h =
    let g = step_banned s c h in let r = run_banned (step s c) cs g.1 in (r.0 ∙ g.0, r.1)

-- After a 418, whatever is called, nothing more is granted and the limiter stays banned.
pub ban_ends_grants :
    (s : World) (now : ℕ) (reason : String) (cs : List (ℕ × Call))
    → let s' = run (step s (now, bans reason)) cs in (s'.log ≡ s.log) × (s'.limiter.banned ≡ true)
unfolding step mark_banned
ban_ends_grants s now reason cs = run_banned (step s (now, bans reason)) cs refl
