-- ===== src/Backfill/Paginator/Fuel.antt =====
-- The loop of rest-paginator.ts stops by its own count of the pages, not by its fuel.
use ariai_exam.Prelude.{
  ℕ, zero, suc, ◌+◌, ◌-◌, ◌<◌, ◌≤◌, ◌≡◌, refl, arith, Bool-cases, inl, inr, true, if◌then◌else◌,
  leb, ltb,
}
use ariai_exam.Prelude.Effects.{◌>>=◌}
use ariai_exam.Backfill.Paginator.{
  PaginateOptions, paginate_loop, consume_page, stop, completed, max_pages_exceeded,
}

module _ {ℓ κ μ} {S : Type ℓ} {E : Type κ} {T : Type μ} (opts : PaginateOptions S E T) where
  -- With `pages` counted, fuel for more rounds than are left changes nothing.
  pub paginate_loop-fuel :
      (more fuel cursor pages rows : ℕ) (s : S)
      → fuel ≤ more
      → opts.max_pages < pages + fuel
      → paginate_loop opts more cursor pages rows s ≡ paginate_loop opts fuel cursor pages rows s
  unfolding paginate_loop
  paginate_loop-fuel zero zero cursor pages rows s le h = refl
  paginate_loop-fuel zero (suc fuel) cursor pages rows s le h = absurd (omega (arith, le))
  paginate_loop-fuel (suc more) zero cursor pages rows s le h =
      let full : leb opts.max_pages pages ≡ true = ground (arith, h) in
      elim (Bool-cases (ltb cursor opts.end_ms)) [
        | inl inside ↦ rw (inside, full) refl
        | inr done ↦ rw done refl
      ]
  paginate_loop-fuel (suc more) (suc fuel) cursor pages rows s le h = λ i.
      (if ltb cursor opts.end_ms
          then (if leb opts.max_pages pages
              then stop opts max_pages_exceeded cursor pages rows
              else opts.fetch_page cursor (opts.end_ms - 1) opts.page_limit
                >>= consume_page opts
                    (λ cursor' rows' s'.
                      paginate_loop-fuel more fuel cursor' (pages + 1) rows' s' (omega (arith, le))
                        (omega (arith, h)) i)
                    cursor (pages + 1) rows)
          else stop opts completed cursor pages rows)
        s
