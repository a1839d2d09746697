-- ===== src/Binance/RateLimiter.antt =====
-- backend/src/binance/rate-limiter.ts. A method takes the clock's reading where the source calls
-- `this.now()`. A number that a caller read from a header is an option: `none` is one that is not
-- finite (or, for the used weight, negative).
pub mod History
pub mod Window
pub mod Budget
pub mod Stops
pub mod Waiting
mod Tests
use Prim.Native.String.{String}
use ariai_exam.Prelude.{
  ℕ, zero, suc, ◌+◌, ◌-◌, ◌*◌, max, Bool, true, false, List, [], ◌∷◌, ◌++◌, Option, none, some,
  Result, ok, err, ltb, leb, ◌==◌, if◌then◌else◌, filter, sum_of,
}

pub record WeightEntry : Type 0 where
  pub at : ℕ
  pub weight : ℕ

pub record Limiter : Type 0 where
  pub budget_per_min : ℕ
  pub window_ms : ℕ
  pub entries : List WeightEntry
  pub paused_until : ℕ
  pub banned : Bool
  pub banned_reason : String

pub data LimiterError : Type 0 where
  bad_budget : LimiterError
  bad_weight : ℕ → LimiterError
  over_budget : ℕ → ℕ → LimiterError
  ip_ban : String → LimiterError

abbrev pub default_window_ms : ℕ
default_window_ms = 60_000

abbrev pub min_wait_ms : ℕ
min_wait_ms = 50

-- The constructor: the budget is checked, the window has a default.
unfoldable pub create : Option ℕ → Option ℕ → Result LimiterError Limiter
create none window = err bad_budget
create (some budget) window =
    if budget == 0
    then err bad_budget
    else ok (record {
      budget_per_min = budget;
      window_ms = elim window [ none ↦ default_window_ms | some w ↦ w ];
      entries = [];
      paused_until = 0;
      banned = false;
      banned_reason = "";
    })

-- `entry.at + this.windowMs > now`
abbrev pub in_window : ℕ → ℕ → WeightEntry → Bool
in_window window_ms now e = ltb now (e.at + window_ms)

unfoldable pub prune : ℕ → Limiter → Limiter
prune now l = record l { entries = filter (in_window l.window_ms now) l.entries }

unfoldable pub used_weight : Limiter → ℕ
used_weight l = sum_of (λ e. e.weight) l.entries

-- What one round of the loop of `acquire` comes to.
pub data Round : Type 0 where
  granted : Limiter → Round
  sleeps : ℕ → Limiter → Round
  throws : LimiterError → Limiter → Round

-- `Math.max(oldest.at + this.windowMs - now, MIN_WAIT_MS)`. The subtraction is not negative for an
-- entry that `prune now` keeps.
unfoldable pub wait_ms : ℕ → Limiter → ℕ
wait_ms now l = elim l.entries [
  | [] ↦ min_wait_ms
  | oldest ∷ _ ↦ max (oldest.at + l.window_ms - now) min_wait_ms
]

-- One round, run without interruption: the pause is tested before the budget.
unfoldable pub acquire_round : ℕ → ℕ → Limiter → Round
unfolding prune used_weight wait_ms
acquire_round weight now l =
    if l.banned
    then throws (ip_ban l.banned_reason) l
    else if ltb now l.paused_until
    then sleeps (l.paused_until - now) l
    else let l' = prune now l in
      if leb (used_weight l' + weight) l'.budget_per_min
      then granted (record l' { entries = l'.entries ++ record { at = now; weight = weight } ∷ [] })
      else sleeps (wait_ms now l') l'

-- `acquire` with nobody else at work: round `k` of those left wakes up `late k` milliseconds after
-- the time it asked for. `none` means that the fuel ran out.
unfoldable pub acquire_loop :
    ℕ → (ℕ → ℕ) → ℕ → ℕ → Limiter → Option (Result LimiterError (ℕ × Limiter))
acquire_loop zero late weight now l = none
acquire_loop (suc fuel) late weight now l = elim (acquire_round weight now l) [
  | granted l' ↦ some (ok (now, l'))
  | throws e l' ↦ some (err e)
  | sleeps ms l' ↦ acquire_loop fuel late weight (now + ms + late fuel) l'
]

unfoldable pub acquire : ℕ → (ℕ → ℕ) → ℕ → ℕ → Limiter → Option (Result LimiterError (ℕ × Limiter))
acquire fuel late weight now l =
    if weight == 0
    then some (err (bad_weight weight))
    else if ltb l.budget_per_min weight
    then some (err (over_budget weight l.budget_per_min))
    else acquire_loop fuel late weight now l

unfoldable pub sync_server_used_weight : Option ℕ → ℕ → Limiter → Limiter
unfolding prune used_weight
sync_server_used_weight none now l = l
sync_server_used_weight (some server) now l =
    let l' = prune now l in
    let local = used_weight l' in
    if ltb local server
    then record l' { entries = l'.entries ++ record { at = now; weight = server - local } ∷ [] }
    else l'

unfoldable pub apply_retry_after : Option ℕ → ℕ → Limiter → Limiter
apply_retry_after retry_after_sec now l =
    let sec : ℕ = elim retry_after_sec [ none ↦ 1 | some s ↦ max s 1 ] in
    record l { paused_until = max l.paused_until (now + sec * 1_000) }

unfoldable pub mark_banned : String → Limiter → Limiter
mark_banned reason l = record l { banned = true; banned_reason = reason }

unfoldable pub get_used_weight : ℕ → Limiter → ℕ × Limiter
unfolding prune used_weight
get_used_weight now l = let l' = prune now l in (used_weight l', l')

pub record LimiterStatus : Type 0 where
  pub used_weight : ℕ
  pub budget_per_min : ℕ
  pub paused_for_ms : ℕ
  pub banned : Bool

-- `Math.max(this.pausedUntil - now, 0)` is the subtraction of ℕ.
unfoldable pub get_status : ℕ → Limiter → LimiterStatus × Limiter
unfolding prune used_weight
get_status now l =
    let l' = prune now l in
    (
      record {
        used_weight = used_weight l';
        budget_per_min = l'.budget_per_min;
        paused_for_ms = l'.paused_until - now;
        banned = l'.banned;
      },
      l',
    )
