-- ===== src/Backfill/Service.antt =====
-- backend/src/backfill/backfill.service.ts: which windows are fetched, and the ranges tracked meanwhile. A
-- run is cut at its awaits. A range of the source is an object: it is told from another by its number.
pub mod InFlight
mod Tests
use ariai_exam.Prelude.{
  refl, arith, ℕ, suc, ◌+◌, ◌-◌, ◌*◌, ◌≡◌, ◌↔◌, Bool, not, true, false, List, [], ◌∷◌, ◌++◌, Option,
  none, some, Result, ok, err, ltb, leb, ◌==◌, if◌then◌else◌, filter, any, map, length, Eq, map_get,
  map_set,
}
use ariai_exam.Config.{Symbol, btcusdt, ethusdt, same_symbol}
use ariai_exam.Backfill.GapMath.{TimeRange, ranges_overlap}

pub same_symbol_iff : (a b : Symbol) → (same_symbol a b ≡ true) ↔ (a ≡ b)
same_symbol_iff btcusdt btcusdt = ((λ _. refl), (λ _. refl))
same_symbol_iff ethusdt ethusdt = ((λ _. refl), (λ _. refl))
same_symbol_iff btcusdt ethusdt =
    ((λ e. absurd (ground (arith, e))), (λ e. absurd (ground (arith, e))))
same_symbol_iff ethusdt btcusdt =
    ((λ e. absurd (ground (arith, e))), (λ e. absurd (ground (arith, e))))

instance abbrev pub symbol_eq : Eq Symbol
symbol_eq = record { beq = same_symbol; beq_iff = same_symbol_iff }

pub record Claim : Type 0 where
  pub object : ℕ
  pub range : TimeRange

-- `isEngineBusy` and `inFlightRanges`
pub record Engine : Type 0 where
  pub is_engine_busy : Bool
  pub in_flight_ranges : List (Symbol × List Claim)
  pub next_object : ℕ

-- The objects of a list of ranges.
abbrev pub number : ℕ → List TimeRange → List Claim
number n [] = []
number n (range' ∷ ranges) = record { object = n; range = range' } ∷ number (suc n) ranges

abbrev pub or_empty : Option (List Claim) → List Claim
or_empty none = []
or_empty (some claims) = claims

-- `this.inFlightRanges.get(symbol) ?? []`
abbrev pub active : Symbol → Engine → List Claim
active symbol e = or_empty (map_get symbol e.in_flight_ranges)

abbrev pub is_overlapping : List Claim → Claim → Bool
is_overlapping [] gap = false
is_overlapping (claim ∷ claims) gap =
    if ranges_overlap claim.range gap.range then true else is_overlapping claims gap

-- `splitByInFlight`: what can run, and what is skipped.
abbrev pub runnable : List Claim → List Claim → List Claim
runnable claims gaps = filter (λ gap. not (is_overlapping claims gap)) gaps

abbrev pub skipped : List Claim → List Claim → List Claim
skipped claims gaps = filter (λ gap. is_overlapping claims gap) gaps

abbrev pub track_ranges : Symbol → List Claim → Engine → Engine
track_ranges symbol ranges e = record e {
  in_flight_ranges = map_set symbol (active symbol e ++ ranges) e.in_flight_ranges;
}

abbrev pub includes : List Claim → Claim → Bool
includes [] claim = false
includes (other ∷ others) claim =
    if other.object == claim.object then true else includes others claim

abbrev pub untrack_ranges : Symbol → List Claim → Engine → Engine
untrack_ranges symbol ranges e = record e {
  in_flight_ranges =
      map_set symbol (filter (λ claim. not (includes ranges claim)) (active symbol e))
        e.in_flight_ranges;
}

-- `runWindow` from the gaps that were found up to its next await: it claims those that can run.
unfoldable pub begin_window : Symbol → List TimeRange → Engine → List Claim × Engine
begin_window symbol gaps e =
    let found = number e.next_object gaps in
    let can_run = runnable (active symbol e) found in
    (can_run, track_ranges symbol can_run (record e { next_object = e.next_object + length gaps }))

-- Its `finally`.
unfoldable pub end_window : Symbol → List Claim → Engine → Engine
end_window symbol claims e = untrack_ranges symbol claims e

-- `bootstrap` and `recoverGaps` run only where neither does already.
abbrev pub enter_engine : Engine → Bool × Engine
enter_engine e = (not e.is_engine_busy, record e { is_engine_busy = true })

abbrev pub leave_engine : Engine → Engine
leave_engine e = record e { is_engine_busy = false }
