-- ===== src/Binance/RateLimiter/Tests.antt =====
-- Runs of rate-limiter.ts, and its theorems at concrete histories.
use ariai_exam.Prelude.{
  ℕ, ◌+◌, ◌*◌, ◌≤◌, ◌≡◌, ◌++◌, refl, arith, List, [], ◌∷◌, none, some, ok, err, true, false, max,
  All,
}
use ariai_exam.Binance.RateLimiter.{
  Limiter, WeightEntry, create, acquire, acquire_loop, acquire_round, bad_budget, over_budget,
  sync_server_used_weight,
}
use ariai_exam.Binance.RateLimiter.History.{World, Call, acquires, syncs, retries, bans, step, run}
use ariai_exam.Binance.RateLimiter.Window.{spent}
use ariai_exam.Binance.RateLimiter.Budget.{grants_within_budget}
use ariai_exam.Binance.RateLimiter.Stops.{retry_after_holds, ban_ends_grants}
use ariai_exam.Binance.RateLimiter.Waiting.{acquire_gets_through}

abbrev fresh : Limiter
fresh = record {
  budget_per_min = 10;
  window_ms = 1_000;
  entries = [];
  paused_until = 0;
  banned = false;
  banned_reason = "";
}

abbrev busy : Limiter
busy = record fresh {
  entries = record { at = 0; weight = 6 } ∷ record { at = 300; weight = 4 } ∷ [];
  paused_until = 500;
}

abbrev history : List (ℕ × Call)
history = (0, acquires 6) ∷ (5, syncs (some 8)) ∷ (9, acquires 3) ∷ (1_000, acquires 3) ∷ []

create_runs : create (some 10) (some 1_000) ≡ ok fresh
unfolding create
create_runs = refl

create_refuses : create (some 0) none ≡ err bad_budget
unfolding create
create_refuses = refl

-- The second grant has to wait: the server has seen more than the client.
history_runs :
    (run (record { limiter = fresh; log = [] }) history).log
    ≡ record { at = 0; weight = 6 } ∷ record { at = 1_000; weight = 3 } ∷ []
unfolding run step acquire_round sync_server_used_weight
history_runs = refl

-- It waits out the pause, and then for the first entry.
acquire_runs :
    acquire 4 (λ k. 1) 5 0 busy
    ≡ some (
        ok (
          1_001,
          record busy {
            entries = record { at = 300; weight = 4 } ∷ record { at = 1_001; weight = 5 } ∷ [];
          },
        ))
unfolding acquire acquire_loop acquire_round
acquire_runs = refl

acquire_refuses : acquire 4 (λ k. 1) 11 0 busy ≡ some (err (over_budget 11 10))
unfolding acquire
acquire_refuses = refl

grants_within_budget_example :
    spent 1_000 1_500 (run (record { limiter = fresh; log = [] }) history).log ≤ 10
grants_within_budget_example =
    grants_within_budget fresh 0 history 1_500 (omega arith) (omega arith)

retry_after_holds_example :
    let s : World = record { limiter = fresh; log = [] } in
    (new : List WeightEntry) × ((run (step s (7, retries (some 2))) history).log ≡ [] ++ new)
    × All (λ e. 7 + max 2 1 * 1_000 ≤ e.at) new
retry_after_holds_example = retry_after_holds (record { limiter = fresh; log = [] }) 7 2 history

ban_ends_grants_example :
    let s : World = record { limiter = fresh; log = [] } in
    let s' = run (step s (7, bans "HTTP 418")) history in (s'.log ≡ []) × (s'.limiter.banned ≡ true)
ban_ends_grants_example =
    ban_ends_grants (record { limiter = fresh; log = [] }) 7 "HTTP 418" history

acquire_gets_through_example :
    (at : ℕ) × (l' : Limiter) × (acquire 4 (λ k. 1) 5 0 busy ≡ some (ok (at, l')))
    × (0 ≤ at)
    × (500 ≤ at)
acquire_gets_through_example =
    acquire_gets_through (λ k. 1) 5 4 0 busy (omega arith) (omega arith) refl (omega arith)
