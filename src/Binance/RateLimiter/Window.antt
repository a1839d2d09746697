-- ===== src/Binance/RateLimiter/Window.antt =====
-- Weight spent in a sliding window: the sums that `prune` and `usedWeight` compute.
use ariai_exam.Prelude.{ℕ, ◌+◌, ◌≤◌, ◌≡◌, refl, arith, List, [], ◌∷◌, ◌++◌, filter, sum_of}
use ariai_exam.Binance.RateLimiter.{WeightEntry, in_window}

-- The weight of the entries that lie in the window that ends at `t`.
abbrev pub spent : ℕ → ℕ → List WeightEntry → ℕ
spent w t es = sum_of (λ e. e.weight) (filter (in_window w t) es)

pub spent-append :
    (w t : ℕ) (es fs : List WeightEntry) → spent w t (es ++ fs) ≡ spent w t es + spent w t fs
spent-append w t [] fs = omega arith
spent-append w t (e ∷ es) fs = ground (arith, spent-append w t es fs)

-- Pruning at `now` loses nothing of what a later window holds.
pub spent-filter :
    (w now t : ℕ) (es : List WeightEntry)
    → now ≤ t
    → spent w t (filter (in_window w now) es) ≡ spent w t es
spent-filter w now t [] h = refl
spent-filter w now t (e ∷ es) h = ground (arith, spent-filter w now t es h)

pub spent-le-sum : (w t : ℕ) (es : List WeightEntry) → spent w t es ≤ sum_of (λ e. e.weight) es
spent-le-sum w t [] = omega arith
spent-le-sum w t (e ∷ es) = ground (arith, spent-le-sum w t es)

pub spent_antitone : (w s t : ℕ) (es : List WeightEntry) → s ≤ t → spent w t es ≤ spent w s es
spent_antitone w s t [] h = omega arith
spent_antitone w s t (e ∷ es) h = ground (arith, spent_antitone w s t es h)
