-- ===== src/Backfill/Paginator/Tests.antt =====
-- Runs of rest-paginator.ts with an exchange of two pages, and its theorem at one that misbehaves.
use ariai_exam.Prelude.{
  ℕ, ◌+◌, ◌≡◌, ◌≤◌, ◌++◌, refl, List, [], ◌∷◌, some, Result, ok, err, All, if◌then◌else◌, ltb,
}
use ariai_exam.Backfill.Paginator.{
  completed, paginate_klines, paginate_loop, consume_page, compute_max_pages,
}
use ariai_exam.Backfill.Paginator.Bounds.{
  Log, any_exchange, Inside, Counted, paginate_klines_bounds,
}

-- It answers with rows past the end too, and fails on the third page.
abbrev two_pages : ℕ → ℕ → ℕ → ℕ → Result ℕ (List ℕ) × ℕ
two_pages from to n asked =
    (if ltb asked 2 then ok (from ∷ (from + 10) ∷ []) else err 503, asked + 1)

abbrev quiet : Log ℕ ℕ
quiet = record { world = 0; asked = 0; handed = [] }

paginate_runs : paginate_klines (any_exchange 0 30 10 2 5 two_pages some) quiet ≡ (
  ok (record { pages = 2; rows = 3; stop_reason = completed; next_cursor_ms = 40 }),
  record { world = 2; asked = 2; handed = 0 ∷ 10 ∷ 20 ∷ [] },
)
unfolding paginate_klines paginate_loop consume_page
paginate_runs = refl

max_pages_runs : compute_max_pages 0 90_000_000 60_000 1_000 ≡ 4
unfolding compute_max_pages
max_pages_runs = refl

paginate_klines_bounds_example :
    let opts = any_exchange 0 90 10 2 5 two_pages some in
    let o = paginate_klines opts quiet in
    ((new : List ℕ) × (o.1.handed ≡ [] ++ new)
      × All (Inside 0 90 10 2 5 two_pages some 0) new
      × (o.1.asked ≤ 5)
      × Counted 0 90 10 2 5 two_pages some 0 0 0 quiet new o)
    × ((extra : ℕ) → paginate_loop opts (6 + extra) 0 0 0 quiet ≡ o)
paginate_klines_bounds_example = paginate_klines_bounds 0 90 10 2 5 two_pages some quiet
