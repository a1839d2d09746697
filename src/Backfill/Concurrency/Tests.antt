-- ===== src/Backfill/Concurrency/Tests.antt =====
-- Three items on two lanes.
use ariai_exam.Prelude.{
  ℕ, ◌<◌, ◌≡◌, refl, true, All, List, [], ◌∷◌, some, map_get, map_set, nat_eq, length,
}
use ariai_exam.Prelude.Occurs.{In}
use ariai_exam.Backfill.Concurrency.{
  done, busy, threw, Happening, returns, throws, begin_lanes, run_with_concurrency,
}
use ariai_exam.Backfill.Concurrency.Lanes.{upto, is_done}
use ariai_exam.Backfill.Concurrency.Laws.{run_with_concurrency_lem}

-- The last happening comes first.
abbrev story : List (Happening ℕ)
story = returns 0 30 ∷ returns 1 20 ∷ returns 0 10 ∷ []

story_runs : run_with_concurrency 3 2 story ≡ record {
  lanes = done ∷ done ∷ [];
  next_index = 3;
  results = (0, 10) ∷ (1, 20) ∷ (2, 30) ∷ [];
  called = 0 ∷ 1 ∷ 2 ∷ [];
  answers = (0, 10) ∷ (1, 20) ∷ (2, 30) ∷ [];
}
unfolding run_with_concurrency begin_lanes map_set
story_runs = refl

-- One lane has thrown, and the other one is still at work.
abbrev mishap : List (Happening ℕ)
mishap = throws 1 ∷ returns 0 10 ∷ []

throw_runs : (run_with_concurrency 3 2 mishap).lanes ≡ busy 2 ∷ threw 1 ∷ []
unfolding run_with_concurrency begin_lanes map_set
throw_runs = refl

run_with_concurrency_lem_example :
    let p = run_with_concurrency 3 2 story in
    (length p.lanes ≡ 2)
    × (p.called ≡ upto p.next_index)
    × (All (λ lane. is_done lane ≡ true) p.lanes
        → (p.called ≡ upto 3)
          × ((i : ℕ) → i < 3 → (r : ℕ) × (map_get i p.results ≡ some r) × In (i, r) p.answers))
run_with_concurrency_lem_example = run_with_concurrency_lem 3 2 story
