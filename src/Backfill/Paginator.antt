-- ===== src/Backfill/Paginator.antt =====
-- backend/src/backfill/rest-paginator.ts: the cursor over the pages of the exchange. The two callbacks
-- are parameters; they act on a state of any type and may throw.
pub mod Bounds
pub mod Frame
pub mod Fuel
mod Tests
use ariai_exam.Prelude.{
  ℕ, zero, suc, ◌+◌, ◌-◌, ◌/◌, min, Bool, ◌&&◌, false, List, [], ◌∷◌, Option, none, some, Result,
  ltb, leb, ◌==◌, if◌then◌else◌, filter, length,
}
use ariai_exam.Prelude.Effects.{Eff, pure, ◌>>=◌, ◌>>◌}

pub data PaginateStopReason : Type 0 where
  completed empty_page cursor_stalled max_pages_exceeded : PaginateStopReason

pub record PaginateResult : Type 0 where
  pub pages : ℕ
  pub rows : ℕ
  pub stop_reason : PaginateStopReason
  pub next_cursor_ms : ℕ

-- `PaginateKlinesOptions`
pub record PaginateOptions {ℓ κ μ} (S : Type ℓ) (E : Type κ) (T : Type μ) : Type (ℓ ⊔ κ ⊔ μ) where
  pub start_ms : ℕ
  pub end_ms : ℕ
  pub step_ms : ℕ
  pub page_limit : ℕ
  pub max_pages : ℕ
  pub fetch_page : ℕ → ℕ → ℕ → Eff S E (List T)
  pub on_page : List T → Eff S E (Unit {0})
  pub get_open_time_ms : T → Option ℕ

abbrev pub max_pages_hard_cap : ℕ
max_pages_hard_cap = 500

abbrev pub max_pages_safety_margin : ℕ
max_pages_safety_margin = 2

-- `Math.ceil(a / b)`
abbrev pub ceil_div : ℕ → ℕ → ℕ
ceil_div a b = (a + (b - 1)) / b

-- `Math.max(0, …)` is the subtraction of ℕ.
unfoldable pub compute_max_pages : ℕ → ℕ → ℕ → ℕ → ℕ
compute_max_pages start_ms end_ms step_ms page_limit =
    let candles = ceil_div (end_ms - start_ms) step_ms in
    min (ceil_div candles page_limit + max_pages_safety_margin) max_pages_hard_cap

module _ {ℓ κ μ} {S : Type ℓ} {E : Type κ} {T : Type μ} (opts : PaginateOptions S E T) where
  open opts use {
    start_ms, end_ms, step_ms, page_limit, max_pages, fetch_page, on_page, get_open_time_ms,
  }

  -- The open time that a row shows lies in [cursor, end).
  abbrev pub in_range : ℕ → T → Bool
  in_range cursor_ms row = elim (get_open_time_ms row) [
    | none ↦ false
    | some open_time ↦ leb cursor_ms open_time && ltb open_time end_ms
  ]

  -- The open time of the last row of a page.
  abbrev pub last_open_time : T → List T → Option ℕ
  last_open_time row [] = get_open_time_ms row
  last_open_time row (next ∷ rows) = last_open_time next rows

  -- Where the cursor goes from a page; `none` where it would not advance.
  abbrev pub next_cursor : ℕ → Option ℕ → Option ℕ
  next_cursor cursor_ms none = none
  next_cursor cursor_ms (some last) =
      if leb (last + step_ms) cursor_ms then none else some (last + step_ms)

  -- `onPage` is called for a page that is not empty.
  abbrev pub deliver : List T → Eff S E (Unit {0})
  deliver [] = pure tt
  deliver (row ∷ rows) = on_page (row ∷ rows)

  abbrev pub stop : PaginateStopReason → ℕ → ℕ → ℕ → Eff S E PaginateResult
  stop reason cursor_ms pages rows =
      pure (record { pages = pages; rows = rows; stop_reason = reason; next_cursor_ms = cursor_ms })

  -- The end of a round: the cursor moves to where it is given, or has stalled.
  abbrev pub advance :
      (ℕ → ℕ → Eff S E PaginateResult) → ℕ → ℕ → ℕ → Option ℕ → Eff S E PaginateResult
  advance continue cursor_ms pages rows none = stop cursor_stalled cursor_ms pages rows
  advance continue cursor_ms pages rows (some cursor') = continue cursor' rows

  -- The rest of a round, once `await opts.fetchPage(…)` has given a page; `pages` counts it already.
  -- `continue` is the next round, at a cursor and with a number of rows.
  unfoldable pub consume_page :
      (ℕ → ℕ → Eff S E PaginateResult) → ℕ → ℕ → ℕ → List T → Eff S E PaginateResult
  consume_page continue cursor_ms pages rows [] = stop empty_page cursor_ms pages rows
  consume_page continue cursor_ms pages rows (first ∷ others) = do
    let inside = filter (in_range cursor_ms) (first ∷ others)
    deliver inside
    advance continue cursor_ms pages (rows + length inside)
        (next_cursor cursor_ms (last_open_time first others))

  -- The `while` loop, with fuel for its rounds. The fuel does not run out before `pages` has reached
  -- `maxPages`, where the loop stops the same way.
  unfoldable pub paginate_loop : ℕ → ℕ → ℕ → ℕ → Eff S E PaginateResult
  paginate_loop zero cursor_ms pages rows =
      stop (if ltb cursor_ms end_ms then max_pages_exceeded else completed) cursor_ms pages rows
  paginate_loop (suc fuel) cursor_ms pages rows =
      let next = λ (cursor' rows' : ℕ). paginate_loop fuel cursor' (pages + 1) rows' in
      let round =
        fetch_page cursor_ms (end_ms - 1) page_limit
        >>= consume_page next cursor_ms (pages + 1) rows in
      if ltb cursor_ms end_ms
      then (if leb max_pages pages then stop max_pages_exceeded cursor_ms pages rows else round)
      else stop completed cursor_ms pages rows

  unfoldable pub paginate_klines : Eff S E PaginateResult
  paginate_klines = paginate_loop (suc max_pages) start_ms 0 0
