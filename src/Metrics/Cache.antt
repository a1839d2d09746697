-- ===== src/Metrics/Cache.antt =====
-- backend/src/metrics/metrics-cache.service.ts: MetricsCacheService. A computation runs from the call that
-- starts it to the answer of the database, which is an event; what waits for it goes on then. `running` is no
-- field of the service: it holds the computations that the database works on, whatever `inflight` says.
pub mod Laws
mod Tests
use ariai_exam.Prelude.{
  ℕ, suc, ◌+◌, Bool, true, false, List, [], ◌∷◌, ◌++◌, Option, none, some, Result, ok, err, any,
  if◌then◌else◌, map_get, map_set, map_delete, contains,
}
use ariai_exam.Config.{Symbol, same_symbol}
use ariai_exam.Backfill.Service.{symbol_eq}

-- What awaits a computation: the loop of refreshAll with the symbols that it has left, the handler of a
-- closed candle, or a request for an overview.
pub data Waiter : Type 0 where
  refresh : List Symbol → Waiter
  candle_closed requested : Waiter

-- One of the computations for a symbol ends.
abbrev pub take_out : Symbol → List Symbol → List Symbol
take_out symbol [] = []
take_out symbol (other ∷ others) =
    if same_symbol other symbol then others else other ∷ take_out symbol others

-- `inflight` holds what waits for each task; `queries` counts the computations, and `published` and `answers`
-- are the events and the answers so far.
pub record Cache {ℓ} (O : Type ℓ) : Type ℓ where
  pub symbols : List Symbol
  pub snapshots : List (Symbol × O)
  pub inflight : List (Symbol × List Waiter)
  pub is_refreshing : Bool
  pub queries : ℕ
  pub running : List Symbol
  pub published : List O
  pub answers : List (Option O)

pub data CacheEvent {ℓ κ} (O : Type ℓ) (E : Type κ) : Type (ℓ ⊔ κ) where
  tick : CacheEvent O E
  kline_closed get_overview : Symbol → CacheEvent O E
  database_answers : Symbol → Result E O → CacheEvent O E

module _ {ℓ} {O : Type ℓ} where
  -- `computeOnce`, by a caller that awaits it.
  abbrev pub join_task : Symbol → Waiter → Option (List Waiter) → Cache O → Cache O
  join_task symbol waiter (some waiters) c = record c {
    inflight = map_set symbol (waiters ++ (waiter ∷ [])) c.inflight;
  }
  join_task symbol waiter none c = record c {
    inflight = map_set symbol (waiter ∷ []) c.inflight;
    queries = c.queries + 1;
    running = c.running ++ (symbol ∷ []);
  }

  abbrev pub compute_once : Symbol → Waiter → Cache O → Cache O
  compute_once symbol waiter c = join_task symbol waiter (map_get symbol c.inflight) c

  -- The `for` loop of refreshAll, on the symbols that are left, and its `finally` block.
  abbrev pub refresh_from : List Symbol → Cache O → Cache O
  refresh_from [] c = record c { is_refreshing = false }
  refresh_from (symbol ∷ symbols') c = compute_once symbol (refresh symbols') c

  abbrev pub refresh_all : Cache O → Cache O
  refresh_all c =
      if c.is_refreshing then c else refresh_from c.symbols (record c { is_refreshing = true })

  abbrev pub handle_kline_closed : Symbol → Cache O → Cache O
  handle_kline_closed symbol c =
      if any (λ other. same_symbol other symbol) c.symbols
      then compute_once symbol candle_closed c
      else c

  abbrev pub answer_or_compute : Symbol → Option O → Cache O → Cache O
  answer_or_compute symbol (some cached) c = record c { answers = c.answers ++ (some cached ∷ []) }
  answer_or_compute symbol none c = compute_once symbol requested c

  -- `getOverview`
  abbrev pub ask_overview : Symbol → Cache O → Cache O
  ask_overview symbol c = answer_or_compute symbol (map_get symbol c.snapshots) c

  abbrev pub publish : Option O → Cache O → Cache O
  publish none c = c
  publish (some overview) c = record c { published = c.published ++ (overview ∷ []) }

  -- What a caller does with the outcome, which is `none` where the computation has thrown.
  abbrev pub resume : Option O → Waiter → Cache O → Cache O
  resume outcome (refresh symbols') c = refresh_from symbols' (publish outcome c)
  resume outcome candle_closed c = publish outcome c
  resume outcome requested c = record c { answers = c.answers ++ (outcome ∷ []) }

  abbrev pub resume_all : Option O → List Waiter → Cache O → Cache O
  resume_all outcome [] c = c
  resume_all outcome (waiter ∷ waiters) c = resume_all outcome waiters (resume outcome waiter c)

  -- The end of computeFromDb: a snapshot is kept where there is one, and the task is forgotten.
  abbrev pub store {κ} : {E : Type κ} → Symbol → Result E O → Cache O → Cache O
  store symbol (ok overview) c = record c {
    snapshots = map_set symbol overview c.snapshots;
    inflight = map_delete symbol c.inflight;
    running = take_out symbol c.running;
  }
  store symbol (err e) c = record c {
    inflight = map_delete symbol c.inflight;
    running = take_out symbol c.running;
  }

  abbrev pub outcome_of {κ} : {E : Type κ} → Result E O → Option O
  outcome_of (ok overview) = some overview
  outcome_of (err e) = none

  abbrev pub settle {κ} :
      {E : Type κ} → Symbol → Result E O → Option (List Waiter) → Cache O → Cache O
  settle symbol r none c = c
  settle symbol r (some waiters) c = resume_all (outcome_of r) waiters (store symbol r c)

  -- An answer to what the database works on; there is no other.
  abbrev pub handle {κ} : {E : Type κ} → CacheEvent O E → Cache O → Cache O
  handle tick c = refresh_all c
  handle (kline_closed symbol) c = handle_kline_closed symbol c
  handle (get_overview symbol) c = ask_overview symbol c
  handle (database_answers symbol r) c =
      if contains symbol c.running then settle symbol r (map_get symbol c.inflight) c else c

  -- The service as it is created, and after what has happened since; the last event comes first.
  abbrev pub new_cache : List Symbol → Cache O
  new_cache symbols' = record {
    symbols = symbols';
    snapshots = [];
    inflight = [];
    is_refreshing = false;
    queries = 0;
    running = [];
    published = [];
    answers = [];
  }

  unfoldable pub after {κ} : {E : Type κ} → List Symbol → List (CacheEvent O E) → Cache O
  after symbols' [] = new_cache symbols'
  after symbols' (event ∷ events) = handle event (after symbols' events)
