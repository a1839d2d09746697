-- ===== src/Binance/RateLimiter/Waiting.antt =====
-- A lone `acquire` gets through: each round of waiting lets the oldest entry leave the window.
use mathlib.Core.Path.{subst}
use ariai_exam.Prelude.{
  ℕ, zero, suc, ◌+◌, ◌-◌, ◌≤◌, ◌<◌, ◌≡◌, ◌∙◌, refl, sym, arith, List, [], ◌∷◌, filter, length,
  length-filter-le, Option, some, Result, ok, ltb, leb, true, false, max, Bool-cases, inl, inr, ◌⊎◌,
  if_split, sum_of, ap, ◌==◌,
}
use ariai_exam.Binance.RateLimiter.{
  WeightEntry, Limiter, LimiterError, Round, granted, sleeps, in_window, prune, used_weight,
  wait_ms, acquire_round, acquire_loop, acquire,
}

-- The outcome of a loop that ends in a grant: not before `now`, and not during a pause.
abbrev Gets : ℕ → ℕ → Option (Result LimiterError (ℕ × Limiter)) → Type 0
Gets now paused r =
    (at : ℕ) × (l' : Limiter) × (r ≡ some (ok (at, l'))) × (now ≤ at) × (paused ≤ at)

abbrev live : ℕ → Limiter → List WeightEntry
live now l = filter (in_window l.window_ms now) l.entries

-- The entry that was waited for has left.
waited :
    (w now ms later : ℕ) (e : WeightEntry) (es : List WeightEntry)
    → ms ≡ max (e.at + w - now) 50
    → now + ms ≤ later
    → length (filter (in_window w later) (e ∷ es)) < length (e ∷ es)
waited w now ms later e es h le =
    let gone : leb (e.at + w) later ≡ true = ground arith in
    ground (arith, gone, length-filter-le (in_window w later) es)

-- A round that sleeps leaves fewer live entries for the next one.
abbrev Shortens : ℕ → Limiter → Round → Type 0
Shortens now l r =
    ((l' : Limiter) × (r ≡ granted l'))
    ⊎ ((ms : ℕ) × (r ≡ sleeps ms (prune now l))
        × ((later : ℕ)
            → now + ms ≤ later
            → length (live later (prune now l)) < length (live now l)))

module _ (weight now : ℕ) (l : Limiter) where
  full-Shortens :
      (es : List WeightEntry)
      → live now l ≡ es
      → weight ≤ l.budget_per_min
      → leb (used_weight (prune now l) + weight) l.budget_per_min ≡ false
      → Shortens now l (sleeps (wait_ms now (prune now l)) (prune now l))
  unfolding prune used_weight wait_ms
  full-Shortens [] e fits full = absurd (ground (arith, ap (sum_of (λ x. x.weight)) e))
  full-Shortens (x ∷ es) e fits full = inr (
    _,
    refl,
    λ later h.
        subst (λ k. length (filter (in_window l.window_ms later) k) < length k) (sym e)
          (waited l.window_ms now _ later x es (rw e refl) h),
  )

  round-Shortens :
      weight ≤ l.budget_per_min
      → l.banned ≡ false
      → l.paused_until ≤ now
      → Shortens now l (acquire_round weight now l)
  unfolding acquire_round
  round-Shortens fits free on =
      if_split (Shortens now l) l.banned (λ b. cc)
        (λ _.
          if_split (Shortens now l) (ltb now l.paused_until) (λ p. absurd (ground arith))
            (λ _.
              if_split (Shortens now l) (leb (used_weight (prune now l) + weight) l.budget_per_min)
                (λ _. inl (_, refl)) (λ full. full-Shortens (live now l) refl fits full)))

module _ (late : ℕ → ℕ) (weight : ℕ) where
  loop-granted :
      (fuel now : ℕ) (l l' : Limiter)
      → acquire_round weight now l ≡ granted l'
      → acquire_loop (suc fuel) late weight now l ≡ some (ok (now, l'))
  unfolding acquire_loop
  loop-granted fuel now l l' e = rw (e, acquire_loop)

  loop-sleeps :
      (fuel now ms : ℕ) (l l' : Limiter)
      → acquire_round weight now l ≡ sleeps ms l'
      → acquire_loop (suc fuel) late weight now l
        ≡ acquire_loop fuel late weight (now + ms + late fuel) l'
  unfolding acquire_loop
  loop-sleeps fuel now ms l l' e = rw (e, acquire_loop)

  -- Once the pause is over, as many rounds as there are live entries, and one more, are enough.
  unpaused-Gets :
      (fuel now : ℕ) (l : Limiter)
      → weight ≤ l.budget_per_min
      → l.banned ≡ false
      → l.paused_until ≤ now
      → length (live now l) < fuel
      → Gets now l.paused_until (acquire_loop fuel late weight now l)
  unfolding acquire_loop prune
  unpaused-Gets zero now l fits free on few = elim few [ ]
  unpaused-Gets (suc fuel) now l fits free on few =
      elim (round-Shortens weight now l fits free on) [
        | inl (l', e) ↦ (now, l', loop-granted fuel now l l' e, omega arith, on)
        | inr (ms, e, less) ↦
            let later = now + ms + late fuel in
            let (at, l', r, h, k) =
              unpaused-Gets fuel later (prune now l) fits free (omega arith)
                (omega (arith, less later (omega arith))) in
            (at, l', loop-sleeps fuel now ms l (prune now l) e ∙ r, omega arith, k)
      ]

  loop-Gets :
      (fuel now : ℕ) (l : Limiter)
      → weight ≤ l.budget_per_min
      → l.banned ≡ false
      → length l.entries + 2 ≤ fuel
      → Gets now l.paused_until (acquire_loop fuel late weight now l)
  unfolding acquire_round
  loop-Gets zero now l fits free few = absurd (omega arith)
  loop-Gets (suc fuel) now l fits free few = elim (Bool-cases (ltb now l.paused_until)) [
    | inl paused ↦
        let ms = l.paused_until - now in
        let later = now + ms + late fuel in
        let (at, l', r, h, k) =
          unpaused-Gets fuel later l fits free (ground arith)
            (omega (arith, length-filter-le (in_window l.window_ms later) l.entries)) in
        (at, l', loop-sleeps fuel now ms l l (simp (free, paused)) ∙ r, omega arith, k)
    | inr on ↦
        unpaused-Gets (suc fuel) now l fits free (ground arith)
          (omega (arith, length-filter-le (in_window l.window_ms now) l.entries))
  ]

  -- A caller that is alone with the limiter, at a weight that the budget allows and with no ban, is
  -- granted within two rounds more than there are entries, however late its sleeps end, and not
  -- before a pause is over.
  pub acquire_gets_through :
      (fuel now : ℕ) (l : Limiter)
      → 0 < weight
      → weight ≤ l.budget_per_min
      → l.banned ≡ false
      → length l.entries + 2 ≤ fuel
      → (at : ℕ) × (l' : Limiter) × (acquire fuel late weight now l ≡ some (ok (at, l')))
        × (now ≤ at)
        × (l.paused_until ≤ at)
  unfolding acquire
  acquire_gets_through fuel now l pos fits free few =
      let positive : (weight == 0) ≡ false = ground arith in
      let allowed : ltb l.budget_per_min weight ≡ false = ground arith in
      rw (positive, allowed) (loop-Gets fuel now l fits free few)
