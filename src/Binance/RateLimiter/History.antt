-- ===== src/Binance/RateLimiter/History.antt =====
-- The limiter on the event loop: the calls of its methods in the order in which they run.
use Prim.Native.String.{String}
use ariai_exam.Prelude.{ℕ, List, [], ◌∷◌, ◌++◌, Option}
use ariai_exam.Binance.RateLimiter.{
  WeightEntry, Limiter, Round, granted, sleeps, throws, acquire_round, sync_server_used_weight,
  apply_retry_after, mark_banned, get_used_weight, get_status,
}

-- A step of the event loop: one uninterrupted round of an `acquire`, or another method.
pub data Call : Type 0 where
  acquires : ℕ → Call
  syncs retries : Option ℕ → Call
  bans : String → Call
  reads_used reads_status : Call

-- The limiter beside what it has granted so far.
pub record World : Type 0 where
  pub limiter : Limiter
  pub log : List WeightEntry

abbrev pub after_round : ℕ → ℕ → World → Round → World
after_round weight now s (granted l) = record {
  limiter = l;
  log = s.log ++ record { at = now; weight = weight } ∷ [];
}
after_round weight now s (sleeps ms l) = record s { limiter = l }
after_round weight now s (throws e l) = record s { limiter = l }

unfoldable pub step : World → ℕ × Call → World
step s (now, acquires weight) = after_round weight now s (acquire_round weight now s.limiter)
step s (now, syncs server) = record s { limiter = sync_server_used_weight server now s.limiter }
step s (now, retries sec) = record s { limiter = apply_retry_after sec now s.limiter }
step s (now, bans reason) = record s { limiter = mark_banned reason s.limiter }
step s (now, reads_used) = record s { limiter = (get_used_weight now s.limiter).1 }
step s (now, reads_status) = record s { limiter = (get_status now s.limiter).1 }

unfoldable pub run : World → List (ℕ × Call) → World
run s [] = s
run s (c ∷ cs) = run (step s c) cs
