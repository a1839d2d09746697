-- ===== src/Frontend/EventStream.antt =====
-- frontend/src/lib/stream/event-stream-client.ts: the client of the event stream, with the timers, the
-- frame requests and the connections of the browser. The schemas, `JSON.parse` and the factory of
-- connections are parameters.
pub mod Methods
pub mod Machine
pub mod Handles
pub mod Histories
pub mod Liveness
mod Tests
use Prim.Native.String.{String}
use text.Mathlib.Text.{◌==◌ as str_eq}
use text.Mathlib.TextEquality.{eq_iff}
use ariai_exam.Prelude.{
  ◌↔◌, ==_iff, arith, ℕ, zero, suc, ◌+◌, ◌-◌, ◌*◌, ◌/◌, ◌≡◌, min, Bool, ◌&&◌, ◌||◌, not, true,
  false, List, [], ◌∷◌, ◌++◌, map, Option, none, some, ltb, ◌==◌, if◌then◌else◌, filter, length,
  drop, Eq, string_eq, map_set, map_values,
}

pub data StreamStatus : Type 0 where
  idle connecting live reconnecting closed : StreamStatus

abbrev pub status_code : StreamStatus → ℕ
status_code idle = 0
status_code connecting = 1
status_code live = 2
status_code reconnecting = 3
status_code closed = 4

abbrev pub same_status : StreamStatus → StreamStatus → Bool
same_status a b = status_code a == status_code b

pub record StreamSnapshot : Type 0 where
  pub status : StreamStatus
  pub attempt : ℕ
  pub last_error : Option String
  pub invalid_count : ℕ

abbrev pub idle_snapshot : StreamSnapshot
idle_snapshot = record { status = idle; attempt = 0; last_error = none; invalid_count = 0 }

abbrev pub flush_interval_ms : ℕ
flush_interval_ms = 120

abbrev pub max_tick_buffer : ℕ
max_tick_buffer = 240

abbrev pub max_candle_buffer : ℕ
max_candle_buffer = 64

abbrev pub stale_after_ms : ℕ
stale_after_ms = 25_000

abbrev pub backoff_steps_ms : List ℕ
backoff_steps_ms = 500 ∷ 1_000 ∷ 2_000 ∷ 4_000 ∷ 8_000 ∷ 15_000 ∷ []

-- `BACKOFF_STEPS_MS[index] ?? 15_000`
abbrev pub step_at : List ℕ → ℕ → ℕ
step_at [] index = 15_000
step_at (base ∷ steps) zero = base
step_at (base ∷ steps) (suc index) = step_at steps index

-- `Math.round(base * (0.8 + Math.random() * 0.4))`, with `Math.random()` in millionths.
unfoldable pub backoff_delay : ℕ → ℕ → ℕ
backoff_delay random attempt =
    (step_at backoff_steps_ms (min attempt (length backoff_steps_ms - 1)) * (8_000_000 + 4 * random)
      + 5_000_000)
    / 10_000_000

-- The pending callback of `scheduleRetry`, with what its closure holds.
pub record RetryTimer : Type 0 where
  pub retry_id : ℕ
  pub next_attempt : ℕ
  pub delay_ms : ℕ

-- What the browser holds for the client: its open connections and its pending callbacks, by handle.
pub record Browser : Type 0 where
  pub sources : List ℕ
  pub retries : List RetryTimer
  pub watchdogs : List ℕ
  pub frames : List ℕ
  pub next_id : ℕ

-- What the browser answers during one step: `Date.now()`, `performance.now()`, `Math.random()`, and whether the
-- factory of connections throws, with what message.
pub record Answers : Type 0 where
  pub now_ms : ℕ
  pub frame_ms : ℕ
  pub random : ℕ
  pub create_error : Option String

-- `clearTimeout(id)` and its like; a null handle clears nothing.
abbrev pub without : Option ℕ → List ℕ → List ℕ
without none ids = ids
without (some id) ids = filter (λ other. not (other == id)) ids

abbrev pub without_retry : Option ℕ → List RetryTimer → List RetryTimer
without_retry none timers = timers
without_retry (some id) timers = filter (λ timer. not (timer.retry_id == id)) timers

abbrev pub same_error : Option String → Option String → Bool
same_error none none = true
same_error (some a) (some b) = str_eq a b
same_error _ _ = false

pub record CandleEvent (B : Type 0) : Type 0 where
  pub symbol : String
  pub interval : String
  pub open_time : ℕ
  pub body : B

-- `${symbol}:${interval}:${candle.openTime}`
pub record CandleKey : Type 0 where
  pub key_symbol : String
  pub key_interval : String
  pub key_open_time : ℕ

abbrev pub same_key : CandleKey → CandleKey → Bool
same_key a b =
    str_eq a.key_symbol b.key_symbol
    && str_eq a.key_interval b.key_interval
    && (a.key_open_time == b.key_open_time)

pub same_key_iff : (a b : CandleKey) → (same_key a b ≡ true) ↔ (a ≡ b)
same_key_iff a b = ground (
  arith,
  eq_iff a.key_symbol b.key_symbol,
  eq_iff a.key_interval b.key_interval,
  ==_iff a.key_open_time b.key_open_time,
)

instance abbrev pub candle_key_eq : Eq CandleKey
candle_key_eq = record { beq = same_key; beq_iff = same_key_iff }

-- What the registered handlers are called with.
pub data Delivery (T B M O : Type 0) : Type 0 where
  on_ticks : List T → Delivery T B M O
  on_candles : List (CandleEvent B) → Delivery T B M O
  on_metrics : M → Delivery T B M O
  on_ops : O → Delivery T B M O

-- The fields of `EventStreamClient`, the browser, and the calls of its listeners and handlers so far.
pub record EventStreamClient (T B M O : Type 0) : Type 0 where
  pub source : Option ℕ
  pub retry_timer : Option ℕ
  pub watchdog_timer : Option ℕ
  pub raf_id : Option ℕ
  pub last_flush_at : ℕ
  pub stopped : Bool
  pub snapshot : StreamSnapshot
  pub last_event_at_ms : Option ℕ
  pub status_listeners : List ℕ
  pub handlers : List ℕ
  pub tick_buffer : List T
  pub candle_buffer : List (CandleKey × CandleEvent B)
  pub browser : Browser
  pub notified : List ℕ
  pub delivered : List (ℕ × Delivery T B M O)
