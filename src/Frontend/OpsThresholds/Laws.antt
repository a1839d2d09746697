-- ===== src/Frontend/OpsThresholds/Laws.antt =====
-- When the headline of the dashboard says that all is well.
use mathlib.Core.List.{cons-ne-nil}
use mathlib.Core.Path.{subst}
use ariai_exam.Prelude.{
  ℕ, suc, ◌-◌, ◌<◌, ◌≤◌, ◌≡◌, ◌≢◌, ◌↔◌, refl, sym, ap, arith, true, List, [], ◌∷◌, Option, none,
  some, ltb, leb, ◌==◌, if◌then◌else◌, length, length-filter-le, map, All, max, min, Bool-cases,
  inl, inr, sum_of,
}
use ariai_exam.Config.{Symbol}
use ariai_exam.Api.Coverage.{
  MissingGroup, coverage_window_hours, resolve_coverage_window, build_coverage_report, round_ratio,
}
use ariai_exam.Frontend.OpsThresholds.{
  StatusTone, ok_tone, idle, warn, down, StreamHealth, OpsHealth, lags_of, greatest, least,
  lag_tone, coverage_tone, worst_tone, worst_from, tone_rank, tone_or_idle, connected_count,
  summarize_health,
}

-- The tone that a number of missing candles of a day ought to have.
abbrev pub tone_of_missing : ℕ → StatusTone
tone_of_missing missing = if leb missing 1 then ok_tone else if leb missing 14 then warn else down

day_expected :
    (now_ms : ℕ) → (resolve_coverage_window now_ms coverage_window_hours).expected ≡ 1_440
unfolding resolve_coverage_window
day_expected now_ms = refl

-- The coverage of a day by the backend, in the tone of the dashboard: one missing candle is still fine, 2 to 14 are a
-- warning, and 15 are an outage.
pub coverage_tone_of_day :
    (symbol : Symbol) (now_ms : ℕ) (groups : List MissingGroup) (max_ranges : ℕ)
    → coverage_tone
        (build_coverage_report symbol
          (resolve_coverage_window now_ms coverage_window_hours)
          groups
          max_ranges).ratio
      ≡ tone_of_missing (sum_of (λ group. group.minutes) groups)
unfolding build_coverage_report resolve_coverage_window
coverage_tone_of_day symbol now_ms groups max_ranges = go (sum_of (λ group. group.minutes) groups)
  where
    go : (m : ℕ) → coverage_tone (round_ratio (1_440 - m) 1_440) ≡ tone_of_missing m
    go m = ground arith

-- Two tones, the worse of which is fine.
worse_ok :
    (w t : StatusTone)
    → (if ltb (tone_rank w) (tone_rank t) then t else w) ≡ ok_tone
    → (w ≡ ok_tone) × (t ≡ ok_tone)
worse_ok ok_tone ok_tone h = (refl, refl)
worse_ok ok_tone idle h = cc
worse_ok ok_tone warn h = cc
worse_ok ok_tone down h = cc
worse_ok idle ok_tone h = cc
worse_ok idle idle h = cc
worse_ok idle warn h = cc
worse_ok idle down h = cc
worse_ok warn ok_tone h = cc
worse_ok warn idle h = cc
worse_ok warn warn h = cc
worse_ok warn down h = cc
worse_ok down ok_tone h = cc
worse_ok down idle h = cc
worse_ok down warn h = cc
worse_ok down down h = cc

-- The worst tone is fine exactly where all are.
worst_from_ok :
    (w : StatusTone) (ts : List StatusTone)
    → (worst_from w ts ≡ ok_tone) ↔ ((w ≡ ok_tone) × All (λ t. t ≡ ok_tone) ts)
worst_from_ok w [] = ((λ h. (h, tt)), (λ h. h.0))
worst_from_ok w (t ∷ ts) =
    let ih = worst_from_ok (if ltb (tone_rank w) (tone_rank t) then t else w) ts in
    (
      (λ h.
          let (first, others) = ih.0 h in let (hw, ht) = worse_ok w t first in (hw, (ht, others))),
      (λ h. ih.1 (rw (h.0, h.1.0) refl, h.1.1)),
    )

connected_count_lem :
    (streams : List StreamHealth)
    → (connected_count streams ≡ length streams) ↔ All (λ s. s.connected ≡ true) streams
connected_count_lem [] = ((λ _. tt), (λ _. refl))
connected_count_lem (s ∷ streams) =
    let ih = connected_count_lem streams in
    elim (Bool-cases s.connected) [
      | inl up ↦ (
        (λ h.
            let k : suc (connected_count streams) ≡ suc (length streams) = rw up at h in
            (up, ih.0 (omega arith))),
        (λ h. rw up (ap suc (ih.1 h.1))),
      )
      | inr off ↦ (
        (λ h.
            let k : connected_count streams ≡ suc (length streams) = rw off at h in
            absurd
              (omega (arith, k, length-filter-le (λ (x : StreamHealth). x.connected) streams))),
        (λ h. absurd (ground (arith, off, h.0))),
      )
    ]

-- What a greatest number says of all.
abbrev Most : ℕ → List ℕ → Option ℕ → Type 0
Most b ns none = ns ≡ []
Most b ns (some g) = (ns ≢ []) × ((g < b) ↔ All (λ n. n < b) ns)

greatest-Most : (b : ℕ) (ns : List ℕ) → Most b ns (greatest ns)
greatest-Most b [] = refl
greatest-Most b (n ∷ ns) = go (greatest ns) (greatest-Most b ns)
  where
    go :
        (o : Option ℕ)
        → Most b ns o
        → Most b (n ∷ ns) (elim o [ none ↦ some n | some m ↦ some (max n m) ])
    go none e = (cons-ne-nil n ns, ((λ h. (h, subst (All (λ k. k < b)) (sym e) tt)), (λ h. h.0)))
    go (some m) (ne, h) = (
      cons-ne-nil n ns,
      ((λ k. (omega arith, h.0 (omega arith))), (λ k. omega (arith, k.0, h.1 k.1))),
    )

-- What a least number says of all.
abbrev Least : ℕ → List ℕ → Option ℕ → Type 0
Least b ns none = ns ≡ []
Least b ns (some g) = (ns ≢ []) × ((b ≤ g) ↔ All (λ n. b ≤ n) ns)

least-Least : (b : ℕ) (ns : List ℕ) → Least b ns (least ns)
least-Least b [] = refl
least-Least b (n ∷ ns) = go (least ns) (least-Least b ns)
  where
    go :
        (o : Option ℕ)
        → Least b ns o
        → Least b (n ∷ ns) (elim o [ none ↦ some n | some m ↦ some (min n m) ])
    go none e = (cons-ne-nil n ns, ((λ h. (h, subst (All (λ k. b ≤ k)) (sym e) tt)), (λ h. h.0)))
    go (some m) (ne, h) = (
      cons-ne-nil n ns,
      ((λ k. (omega arith, h.0 (omega arith))), (λ k. omega (arith, k.0, h.1 k.1))),
    )

lag_part :
    (ns : List ℕ) (o : Option ℕ)
    → Most 5_000 ns o
    → (tone_or_idle (λ lag. lag_tone (some lag) true) o ≡ ok_tone)
      ↔ ((ns ≢ []) × All (λ n. n < 5_000) ns)
lag_part ns none e = ((λ h. cc), (λ h. absurd (h.0 e)))
lag_part ns (some g) (ne, h) =
    ((λ k. (ne, h.0 (ground arith))), (λ k. let lt = h.1 k.1 in ground (arith, lt)))

coverage_part :
    (ns : List ℕ) (o : Option ℕ)
    → Least 9_990 ns o
    → (tone_or_idle coverage_tone o ≡ ok_tone) ↔ ((ns ≢ []) × All (λ n. 9_990 ≤ n) ns)
coverage_part ns none e = ((λ h. cc), (λ h. absurd (h.0 e)))
coverage_part ns (some g) (ne, h) =
    ((λ k. (ne, h.0 (ground arith))), (λ k. let le = h.1 k.1 in ground (arith, le)))

all_four :
    (a b c d : StatusTone)
    → (worst_tone (a ∷ b ∷ c ∷ d ∷ []) ≡ ok_tone)
      ↔ ((a ≡ ok_tone) × (b ≡ ok_tone) × (c ≡ ok_tone) × (d ≡ ok_tone))
all_four a b c d =
    let all = worst_from_ok ok_tone (a ∷ b ∷ c ∷ d ∷ []) in
    (
      (λ h. let (w, ts) = all.0 h in (ts.0, ts.1.0, ts.1.1.0, ts.1.1.1.0)),
      (λ h. all.1 (refl, (h.0, (h.1, (h.2, (h.3, tt)))))),
    )

connected_part : (m n : ℕ) → ((if m == n then ok_tone else down) ≡ ok_tone) ↔ (m ≡ n)
connected_part m n = ((λ h. ground arith), (λ h. ground arith))

failed_part : (n : ℕ) → ((if ltb 0 n then warn else ok_tone) ≡ ok_tone) ↔ (n ≡ 0)
failed_part n = ((λ h. ground arith), (λ h. ground arith))

-- All streams are connected, some lag is known and each known one is below 5 seconds, some coverage is known and each is at least 0.999, and no
-- backfill has failed.
abbrev pub AllWell : OpsHealth → Type 0
AllWell health =
    All (λ s. s.connected ≡ true) health.streams
    × (lags_of health.streams ≢ [])
    × All (λ lag. lag < 5_000) (lags_of health.streams)
    × (map (λ entry. entry.ratio) health.coverage ≢ [])
    × All (λ ratio. 9_990 ≤ ratio) (map (λ entry. entry.ratio) health.coverage)
    × (health.failed_24h ≡ 0)

-- The headline is in the tone of normal operation exactly where all streams are connected, some lag is known and each
-- known lag is below 5 seconds, some coverage is known and each is at least 0.999, and no backfill has failed.
pub summarize_health_ok_iff :
    (health : OpsHealth) → ((summarize_health health).tone ≡ ok_tone) ↔ AllWell health
unfolding summarize_health
summarize_health_ok_iff health =
    let connected = connected_count_lem health.streams in
    let lags = lags_of health.streams in
    let ratios = map (λ entry. entry.ratio) health.coverage in
    let lag = lag_part lags (greatest lags) (greatest-Most 5_000 lags) in
    let coverage = coverage_part ratios (least ratios) (least-Least 9_990 ratios) in
    let equal = connected_part (connected_count health.streams) (length health.streams) in
    let failed = failed_part health.failed_24h in
    let all = all_four _ _ _ _ in
    (
      (λ h.
          let (c, l, r, f) = all.0 h in
          let (some_lag, low) = lag.0 l in
          let (some_ratio, high) = coverage.0 r in
          (connected.0 (equal.0 c), some_lag, low, some_ratio, high, failed.0 f)),
      (λ h.
          let (c, some_lag, low, some_ratio, high, f) = h in
          all.1 (
            equal.1 (connected.1 c),
            lag.1 (some_lag, low),
            coverage.1 (some_ratio, high),
            failed.1 f,
          )),
    )
