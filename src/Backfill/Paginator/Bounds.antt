-- ===== src/Backfill/Paginator/Bounds.antt =====
-- Whatever the exchange answers: how many pages are asked for, and what reaches `onPage`.
use mathlib.Core.Path.{subst}
use ariai_exam.Prelude.{
  append_assoc, ℕ, zero, suc, ◌+◌, ◌-◌, ◌≤◌, ◌<◌, ◌≡◌, ◌≢◌, ◌⊎◌, ◌∙◌, refl, sym, arith,
  Option-cases, Bool-cases, inl, inr, Bool, true, false, List, [], ◌∷◌, ◌++◌, Option, none, some,
  Result, ok, err, ltb, leb, if◌then◌else◌, if_split, filter, length, length-append, All,
  All-append, append-nil,
}
use ariai_exam.Prelude.Effects.{Eff, and_then}
use ariai_exam.Backfill.Paginator.Fuel.{paginate_loop-fuel}
use ariai_exam.Backfill.Paginator.{
  PaginateOptions, PaginateResult, PaginateStopReason, completed, empty_page, cursor_stalled,
  max_pages_exceeded, in_range, deliver, next_cursor, last_open_time, stop, advance, consume_page,
  paginate_loop, paginate_klines,
}

-- What an exchange of any behaviour is, beside how many pages it has been asked for and what `onPage` has been
-- handed so far.
pub record Log {ℓ κ} (W : Type ℓ) (T : Type κ) : Type (ℓ ⊔ κ) where
  pub world : W
  pub asked : ℕ
  pub handed : List T

module _ {ℓ κ μ} {W : Type ℓ} {E : Type κ} {T : Type μ} where
  abbrev pub with_world {ν} : {A : Type ν} → (W → Result E A × W) → Eff (Log W T) E A
  with_world f s = let (r, w) = f s.world in (r, record s { world = w; asked = s.asked + 1 })

  -- `onPage` as a list that grows.
  abbrev pub collect : List T → Eff (Log W T) E (Unit {0})
  collect page s = (ok tt, record s { handed = s.handed ++ page })

module _ {ℓ κ μ} {W : Type ℓ} {E : Type κ} {T : Type μ} (start end step limit max : ℕ)
    (fetch : ℕ → ℕ → ℕ → W → Result E (List T) × W) (open_time : T → Option ℕ) where
  -- Any exchange, with a collector.
  abbrev pub any_exchange : PaginateOptions (Log W T) E T
  any_exchange = record {
    start_ms = start;
    end_ms = end;
    step_ms = step;
    page_limit = limit;
    max_pages = max;
    fetch_page = λ from to n. with_world (fetch from to n);
    on_page = collect;
    get_open_time_ms = open_time;
  }

  abbrev pub Inside : ℕ → T → Type 0
  Inside from row = (t : ℕ) × (open_time row ≡ some t) × (from ≤ t) × (t < end)

  -- As many pages as were asked for, as many rows as were handed over, the cursor at or past `cursor`, and at
  -- the end if the reason is `completed`.
  abbrev pub Counted : ℕ → ℕ → ℕ → Log W T → List T → Result E PaginateResult × Log W T → Type 0
  Counted cursor pages rows s new (err e, s') = Unit {0}
  Counted cursor pages rows s new (ok r, s') =
      (r.pages + s.asked ≡ pages + s'.asked)
      × (r.rows ≡ rows + length new)
      × (cursor ≤ r.next_cursor_ms)
      × ((r.stop_reason ≢ completed) ⊎ (end ≤ r.next_cursor_ms))

  -- Of `max` pages, `pages` have been asked for; `new` is what was handed over between `s` and the outcome.
  abbrev pub Good : ℕ → ℕ → ℕ → Log W T → Result E PaginateResult × Log W T → Type μ
  Good cursor pages rows s o =
      (new : List T) × (o.1.handed ≡ s.handed ++ new)
      × All (Inside cursor) new
      × (o.1.asked + pages ≤ s.asked + max)
      × Counted cursor pages rows s new o

  in_range-Inside :
      (cursor : ℕ) (row : T) → in_range any_exchange cursor row ≡ true → Inside cursor row
  in_range-Inside cursor row h = elim (Option-cases (open_time row)) [
    | inl none' ↦ absurd (ground (arith, none'))
    | inr (t, some') ↦ (t, some', ground (arith, some'), ground (arith, some'))
  ]

  Inside-filter :
      (cursor : ℕ) (page : List T)
      → All (Inside cursor) (filter (in_range any_exchange cursor) page)
  Inside-filter cursor [] = tt
  Inside-filter cursor (row ∷ page) =
      if_split (All (Inside cursor)) (in_range any_exchange cursor row)
        (λ h. (in_range-Inside cursor row h, Inside-filter cursor page))
        (λ _. Inside-filter cursor page)

  Inside-le :
      (cursor cursor' : ℕ) (page : List T)
      → cursor ≤ cursor'
      → All (Inside cursor') page
      → All (Inside cursor) page
  Inside-le cursor cursor' [] le a = tt
  Inside-le cursor cursor' (row ∷ page) le ((t, e, h, k), a) =
      ((t, e, omega arith, k), Inside-le cursor cursor' page le a)

  deliver-collect :
      (page : List T) (s : Log W T)
      → deliver any_exchange page s ≡ (ok tt, record s { handed = s.handed ++ page })
  deliver-collect [] s = λ i. (ok tt, record s { handed = sym (append-nil s.handed) i })
  deliver-collect (row ∷ page) s = refl

  -- One more page handed over in front of what follows.
  Good-handed :
      (cursor cursor' pages rows : ℕ) (page : List T) (s : Log W T)
      (o : Result E PaginateResult × Log W T)
      → cursor ≤ cursor'
      → All (Inside cursor) page
      → Good cursor' pages (rows + length page) (record s { handed = s.handed ++ page }) o
      → Good cursor pages rows s o
  Good-handed cursor cursor' pages rows page s (err x, s') le a (new, e, b, k, g) = (
    page ++ new,
    e ∙ append_assoc s.handed page new,
    All-append (Inside cursor) page new a (Inside-le cursor cursor' new le b),
    k,
    tt,
  )
  Good-handed cursor cursor' pages rows page s (ok r, s') le a (new, e, b, k, g) = (
    page ++ new,
    e ∙ append_assoc s.handed page new,
    All-append (Inside cursor) page new a (Inside-le cursor cursor' new le b),
    k,
    (g.0, omega (arith, g.1, length-append page new), omega (arith, g.2), g.3),
  )

  Good-le :
      (cursor cursor' pages rows : ℕ) (s : Log W T) (o : Result E PaginateResult × Log W T)
      → cursor ≤ cursor'
      → Good cursor' pages rows s o
      → Good cursor pages rows s o
  Good-le cursor cursor' pages rows s (err x, s') le (new, e, b, k, g) =
      (new, e, Inside-le cursor cursor' new le b, k, tt)
  Good-le cursor cursor' pages rows s (ok r, s') le (new, e, b, k, g) =
      (new, e, Inside-le cursor cursor' new le b, k, (g.0, g.1, omega (arith, g.2), g.3))

  -- One more page asked for in front of what follows.
  Good-asked :
      (cursor pages rows : ℕ) (w : W) (s : Log W T) (o : Result E PaginateResult × Log W T)
      → Good cursor (pages + 1) rows (record s { world = w; asked = s.asked + 1 }) o
      → Good cursor pages rows s o
  Good-asked cursor pages rows w s (err x, s') (new, e, b, k, g) = (new, e, b, omega (arith, k), tt)
  Good-asked cursor pages rows w s (ok r, s') (new, e, b, k, g) =
      (new, e, b, omega (arith, k), (omega (arith, g.0), g.1, g.2, g.3))

  -- What a stop gives.
  stop-Good :
      (reason : PaginateStopReason) (cursor pages rows : ℕ) (s : Log W T)
      → pages ≤ max
      → (reason ≢ completed) ⊎ (end ≤ cursor)
      → Good cursor pages rows s (stop any_exchange reason cursor pages rows s)
  stop-Good reason cursor pages rows s le k =
      ([], sym (append-nil s.handed), tt, omega arith, (refl, omega arith, omega arith, k))

  -- After the page has been handed over, the cursor stalls or advances.
  advance-Good :
      (continue : ℕ → ℕ → Eff (Log W T) E PaginateResult) (cursor pages rows : ℕ) (last : Option ℕ)
      (s : Log W T)
      → pages ≤ max
      → ((cursor' : ℕ) → cursor < cursor' → Good cursor' pages rows s (continue cursor' rows s))
      → Good cursor pages rows s
          (advance any_exchange continue cursor pages rows (next_cursor any_exchange cursor last) s)
  advance-Good continue cursor pages rows none s le k =
      stop-Good cursor_stalled cursor pages rows s le (inl (λ e. cc))
  advance-Good continue cursor pages rows (some t) s le k =
      elim (Bool-cases (leb (t + step) cursor)) [
        | inl stalled ↦ rw stalled (stop-Good cursor_stalled cursor pages rows s le (inl (λ e. cc)))
        | inr further ↦
            let up : cursor < t + step = ground arith in
            rw further (
              Good-le cursor (t + step) pages rows s (continue (t + step) rows s) (omega arith)
                (k (t + step) up))
      ]

  consume_page-Good :
      (continue : ℕ → ℕ → Eff (Log W T) E PaginateResult) (cursor pages rows : ℕ) (page : List T)
      (s : Log W T)
      → pages ≤ max
      → ((cursor' rows' : ℕ) (s' : Log W T)
          → cursor < cursor'
          → Good cursor' pages rows' s' (continue cursor' rows' s'))
      → Good cursor pages rows s (consume_page any_exchange continue cursor pages rows page s)
  unfolding consume_page
  consume_page-Good continue cursor pages rows [] s le k =
      stop-Good empty_page cursor pages rows s le (inl (λ e. cc))
  consume_page-Good continue cursor pages rows (first ∷ others) s le k =
      let inside = filter (in_range any_exchange cursor) (first ∷ others) in
      let last = last_open_time any_exchange first others in
      let s' : Log W T = record s { handed = s.handed ++ inside } in
      let rest =
        advance any_exchange continue cursor pages (rows + length inside)
          (next_cursor any_exchange cursor last) in
      subst (λ d. Good cursor pages rows s (and_then d (λ _. rest)))
        (sym (deliver-collect inside s))
        (Good-handed cursor cursor pages rows inside s (rest s') (omega arith)
          (Inside-filter cursor (first ∷ others))
          (advance-Good continue cursor pages (rows + length inside) last s' le
            (λ cursor' up. k cursor' (rows + length inside) s' up)))

  -- A round of the loop, in which a page is asked for.
  round-Good :
      (next : ℕ → ℕ → Eff (Log W T) E PaginateResult) (cursor pages rows : ℕ)
      (r : Result E (List T)) (w : W) (s : Log W T)
      → pages < max
      → ((cursor' rows' : ℕ) (s' : Log W T)
          → Good cursor' (pages + 1) rows' s' (next cursor' rows' s'))
      → Good cursor pages rows s (
          and_then
            (r, record s { world = w; asked = s.asked + 1 })
            (consume_page any_exchange next cursor (pages + 1) rows))
  round-Good next cursor pages rows (err x) w s lt k =
      ([], sym (append-nil s.handed), tt, omega arith, tt)
  round-Good next cursor pages rows (ok page) w s lt k =
      Good-asked cursor pages rows w s
        (consume_page any_exchange next cursor (pages + 1) rows page
          (record s { world = w; asked = s.asked + 1 }))
        (consume_page-Good next cursor (pages + 1) rows page
          (record s { world = w; asked = s.asked + 1 }) (omega arith)
          (λ cursor' rows' s' up. k cursor' rows' s'))

  paginate_loop-Good :
      (fuel cursor pages rows : ℕ) (s : Log W T)
      → pages ≤ max
      → Good cursor pages rows s (paginate_loop any_exchange fuel cursor pages rows s)
  unfolding paginate_loop
  paginate_loop-Good zero cursor pages rows s le =
      stop-Good _ cursor pages rows s le (zero-left (ltb cursor end) refl)
    where
      zero-left :
          (b : Bool)
          → ltb cursor end ≡ b
          → ((if b then max_pages_exceeded else completed) ≢ completed) ⊎ (end ≤ cursor)
      zero-left true e = inl (λ h. cc)
      zero-left false e = inr (ground arith)
  paginate_loop-Good (suc fuel) cursor pages rows s le =
      if_split (λ (m : Eff (Log W T) E PaginateResult). Good cursor pages rows s (m s))
        (ltb cursor end)
        (λ more.
          if_split (λ (m : Eff (Log W T) E PaginateResult). Good cursor pages rows s (m s))
            (leb max pages)
            (λ _. stop-Good max_pages_exceeded cursor pages rows s le (inl (λ e. cc)))
            (λ few.
              let lt : pages < max = ground arith in
              round-Good
                (λ cursor' rows'. paginate_loop any_exchange fuel cursor' (pages + 1) rows') cursor
                pages rows (fetch cursor (end - 1) limit s.world).0
                (fetch cursor (end - 1) limit s.world).1 s lt
                (λ cursor' rows' s'.
                  paginate_loop-Good fuel cursor' (pages + 1) rows' s' (omega arith))))
        (λ done. stop-Good completed cursor pages rows s le (inr (ground arith)))

  -- Whatever the exchange answers and whether or not it throws: the exchange is asked for at most `max` pages,
  -- only rows with an open time in [start, end) are handed over, and a result counts the pages that were asked for
  -- and the rows, and has `completed` only where the cursor has reached the end. More fuel changes nothing.
  pub paginate_klines_bounds :
      (s : Log W T)
      → let o = paginate_klines any_exchange s in
        ((new : List T) × (o.1.handed ≡ s.handed ++ new)
          × All (Inside start) new
          × (o.1.asked ≤ s.asked + max)
          × Counted start 0 0 s new o)
        × ((extra : ℕ) → paginate_loop any_exchange (suc max + extra) start 0 0 s ≡ o)
  unfolding paginate_klines
  paginate_klines_bounds s =
      let (new, e, b, k, g) = paginate_loop-Good (suc max) start 0 0 s (omega arith) in
      (
        (new, e, b, omega (arith, k), g),
        λ extra.
            paginate_loop-fuel any_exchange (suc max + extra) (suc max) start 0 0 s (omega arith)
              (omega arith),
      )
