-- ===== src/Metrics/Cache/Tests.antt =====
-- A refresh of two symbols that meets a request and a failure.
use ariai_exam.Prelude.{
  ℕ, ◌≡◌, refl, true, false, List, [], ◌∷◌, some, ok, err, map_get, map_set, map_delete,
}
use ariai_exam.Config.{Symbol, btcusdt, ethusdt}
use ariai_exam.Metrics.Cache.{refresh, CacheEvent, tick, get_overview, database_answers, after}
use ariai_exam.Metrics.Cache.Laws.{OneEach, after-OneEach}

abbrev both : List Symbol
both = btcusdt ∷ ethusdt ∷ []

-- The last event comes first.
abbrev history : List (CacheEvent ℕ ℕ)
history = database_answers btcusdt (ok 50) ∷ tick ∷ get_overview btcusdt ∷ tick ∷ []

history_runs : after both history ≡ record {
  symbols = both;
  snapshots = (btcusdt, 50) ∷ [];
  inflight = (ethusdt, refresh [] ∷ []) ∷ [];
  is_refreshing = true;
  queries = 2;
  running = ethusdt ∷ [];
  published = 50 ∷ [];
  answers = some 50 ∷ [];
}
unfolding after map_get map_set map_delete
history_runs = refl

abbrev failure : List (CacheEvent ℕ ℕ)
failure = database_answers ethusdt (err 503) ∷ history

failure_ends : (after both failure).is_refreshing ≡ false
unfolding after map_get map_set map_delete
failure_ends = refl

after-OneEach_example : OneEach (after both failure)
after-OneEach_example = after-OneEach both failure
