-- ===== src/Backfill/Concurrency/Lanes.antt =====
-- Lanes, and the items that they hold.
use ariai_exam.Prelude.{
  ℕ, zero, suc, ◌<◌, ◌≤◌, ◌≡◌, ◌∙◌, refl, arith, List, [], ◌∷◌, ◌++◌, nat_eq, length, Option, none,
  some, Bool, true, false, ◌||◌, ◌==◌, All,
}
use ariai_exam.Backfill.Concurrency.{Lane, fresh, done, busy, threw, lane_at, set_lane, fresh_lanes}

-- The numbers below `n`, in their order.
abbrev pub upto : ℕ → List ℕ
upto zero = []
upto (suc n) = upto n ++ (n ∷ [])

-- Is an item in the hands of a lane?
abbrev pub in_hand : ℕ → Lane → Bool
in_hand i fresh = false
in_hand i done = false
in_hand i (busy j) = j == i
in_hand i (threw j) = j == i

abbrev pub held : ℕ → List Lane → Bool
held i [] = false
held i (lane ∷ lanes) = in_hand i lane || held i lanes

abbrev pub is_some {ℓ} : {A : Type ℓ} → Option A → Bool
is_some none = false
is_some (some a) = true

-- Has the loop of a lane ended?
abbrev pub is_done : Lane → Bool
is_done fresh = false
is_done done = true
is_done (busy i) = false
is_done (threw i) = false

abbrev pub any_done : List Lane → Bool
any_done [] = false
any_done (lane ∷ lanes) = is_done lane || any_done lanes

pub length-set_lane :
    (k : ℕ) (lane : Lane) (lanes : List Lane) → length (set_lane k lane lanes) ≡ length lanes
length-set_lane k lane [] = refl
length-set_lane zero lane (old ∷ lanes) = refl
length-set_lane (suc k) lane (old ∷ lanes) = omega (arith, length-set_lane k lane lanes)

-- What a lane holds is held.
pub held-set_lane_new :
    (i k : ℕ) (lane : Lane) (lanes : List Lane)
    → k < length lanes
    → in_hand i lane ≡ true
    → held i (set_lane k lane lanes) ≡ true
held-set_lane_new i k lane [] h e = absurd (omega arith)
held-set_lane_new i zero lane (old ∷ lanes) h e = rw e refl
held-set_lane_new i (suc k) lane (old ∷ lanes) h e =
    ground (arith, held-set_lane_new i k lane lanes)

-- What other lanes hold stays held.
pub held-set_lane_old :
    (i k : ℕ) (lane : Lane) (lanes : List Lane)
    → in_hand i (lane_at k lanes) ≡ false
    → held i lanes ≡ true
    → held i (set_lane k lane lanes) ≡ true
held-set_lane_old i k lane [] h e = e
held-set_lane_old i zero lane (old ∷ lanes) h e = ground (arith, h, e)
held-set_lane_old i (suc k) lane (old ∷ lanes) h e =
    ground (arith, e, held-set_lane_old i k lane lanes h)

pub any_done-set_lane :
    (k : ℕ) (lane : Lane) (lanes : List Lane)
    → is_done lane ≡ false
    → any_done (set_lane k lane lanes) ≡ true
    → any_done lanes ≡ true
any_done-set_lane k lane [] h e = e
any_done-set_lane zero lane (old ∷ lanes) h e = ground (arith, h, e)
any_done-set_lane (suc k) lane (old ∷ lanes) h e =
    ground (arith, e, any_done-set_lane k lane lanes h)

pub or_right : (b c : Bool) → c ≡ true → (b || c) ≡ true
or_right true c h = refl
or_right false c h = h

pub busy_inside : (i k : ℕ) (lanes : List Lane) → lane_at k lanes ≡ busy i → k < length lanes
busy_inside i k [] e = cc
busy_inside i zero (lane ∷ lanes) e = omega arith
busy_inside i (suc k) (lane ∷ lanes) e = omega (arith, busy_inside i k lanes e)

-- The lanes from `k` on are fresh.
abbrev pub FreshFrom : ℕ → List Lane → Type 0
FreshFrom k lanes = (j : ℕ) → k ≤ j → j < length lanes → lane_at j lanes ≡ fresh

pub lane_at-set_lane :
    (j k : ℕ) (lane : Lane) (lanes : List Lane)
    → k < j
    → lane_at j (set_lane k lane lanes) ≡ lane_at j lanes
lane_at-set_lane j k lane [] h = refl
lane_at-set_lane zero k lane (old ∷ lanes) h = absurd (omega arith)
lane_at-set_lane (suc j) zero lane (old ∷ lanes) h = refl
lane_at-set_lane (suc j) (suc k) lane (old ∷ lanes) h =
    lane_at-set_lane j k lane lanes (omega arith)

pub FreshFrom-set_lane :
    (k : ℕ) (lane : Lane) (lanes : List Lane)
    → FreshFrom k lanes
    → FreshFrom (suc k) (set_lane k lane lanes)
FreshFrom-set_lane k lane lanes f j h lt =
    lane_at-set_lane j k lane lanes (omega arith)
    ∙ f j (omega arith) (omega (arith, length-set_lane k lane lanes))

pub fresh_lanes_lem :
    (n : ℕ)
    → (length (fresh_lanes n) ≡ n)
      × FreshFrom 0 (fresh_lanes n)
      × (any_done (fresh_lanes n) ≡ false)
fresh_lanes_lem zero = (refl, (λ j h lt. absurd (omega arith)), refl)
fresh_lanes_lem (suc n) = let (l, f, d) = fresh_lanes_lem n in (omega (arith, l), later f, d)
  where
    later : FreshFrom 0 (fresh_lanes n) → FreshFrom 0 (fresh_lanes (suc n))
    later f zero h lt = refl
    later f (suc j) h lt = f j (omega arith) (omega arith)

-- Loops that have all ended hold nothing.
pub ended_loops :
    (i : ℕ) (lanes : List Lane) → All (λ lane. is_done lane ≡ true) lanes → held i lanes ≡ false
ended_loops i [] h = refl
ended_loops i (fresh ∷ lanes) h = cc
ended_loops i (done ∷ lanes) h = ended_loops i lanes h.1
ended_loops i (busy j ∷ lanes) h = cc
ended_loops i (threw j ∷ lanes) h = cc
