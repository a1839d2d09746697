-- ===== src/Backfill/Concurrency.antt =====
-- backend/src/backfill/async-util.ts: runWithConcurrency. Each lane runs up to its `await`; what happens
-- next is that the worker of some lane returns or throws.
pub mod Lanes
pub mod Laws
mod Tests
use ariai_exam.Prelude.{
  ℕ, zero, suc, ◌+◌, min, max, List, [], ◌∷◌, ◌++◌, ltb, ◌==◌, if◌then◌else◌, map_set, nat_eq,
  length,
}

-- A lane: not begun, at work on an item, at the end of its loop, or left by a throw.
pub data Lane : Type 0 where
  fresh done : Lane
  busy threw : ℕ → Lane

-- The variables of a call, with the items that workers have been called for, and what those have returned that were
-- called for an item.
pub record Pool {ℓ} (R : Type ℓ) : Type ℓ where
  pub lanes : List Lane
  pub next_index : ℕ
  pub results : List (ℕ × R)
  pub called : List ℕ
  pub answers : List (ℕ × R)

pub data Happening {ℓ} (R : Type ℓ) : Type ℓ where
  returns : ℕ → R → Happening R
  throws : ℕ → Happening R

abbrev pub lane_count : ℕ → ℕ → ℕ
lane_count limit items = max 1 (min limit items)

abbrev pub lane_at : ℕ → List Lane → Lane
lane_at k [] = done
lane_at zero (lane ∷ lanes) = lane
lane_at (suc k) (lane ∷ lanes) = lane_at k lanes

abbrev pub set_lane : ℕ → Lane → List Lane → List Lane
set_lane k lane [] = []
set_lane zero lane (old ∷ lanes) = lane ∷ lanes
set_lane (suc k) lane (old ∷ lanes) = old ∷ set_lane k lane lanes

abbrev pub fresh_lanes : ℕ → List Lane
fresh_lanes zero = []
fresh_lanes (suc n) = fresh ∷ fresh_lanes n

abbrev pub new_pool {ℓ} : {R : Type ℓ} → ℕ → Pool R
new_pool n = record {
  lanes = fresh_lanes n;
  next_index = 0;
  results = [];
  called = [];
  answers = [];
}

-- What the worker of a lane has returned, whatever the code makes of it.
abbrev pub note_answer {ℓ} : {R : Type ℓ} → R → Lane → Pool R → Pool R
note_answer r (busy i) p = record p { answers = p.answers ++ ((i, r) ∷ []) }
note_answer r fresh p = p
note_answer r done p = p
note_answer r (threw i) p = p

module _ {ℓ} {R : Type ℓ} (items : ℕ) where
  -- The test of the `while` loop in lane `k`, and the call of the worker.
  abbrev pub take_next : ℕ → Pool R → Pool R
  take_next k p =
      if ltb p.next_index items
      then record p {
        lanes = set_lane k (busy p.next_index) p.lanes;
        next_index = suc p.next_index;
        called = p.called ++ (p.next_index ∷ []);
      }
      else record p { lanes = set_lane k done p.lanes }

  -- The lanes from `k` on begin, in their order.
  unfoldable pub begin_lanes : ℕ → ℕ → Pool R → Pool R
  begin_lanes zero k p = p
  begin_lanes (suc left) k p = begin_lanes left (suc k) (take_next k p)

  -- `results[index] = …`, and the loop goes on.
  abbrev pub returned : ℕ → R → Lane → Pool R → Pool R
  returned k r (busy i) p = take_next k (record p { results = map_set i r p.results })
  returned k r fresh p = p
  returned k r done p = p
  returned k r (threw i) p = p

  abbrev pub thrown : ℕ → Lane → Pool R → Pool R
  thrown k (busy i) p = record p { lanes = set_lane k (threw i) p.lanes }
  thrown k fresh p = p
  thrown k done p = p
  thrown k (threw i) p = p

  abbrev pub happen : Happening R → Pool R → Pool R
  happen (returns k r) p = returned k r (lane_at k p.lanes) (note_answer r (lane_at k p.lanes) p)
  happen (throws k) p = thrown k (lane_at k p.lanes) p

  -- The call, which returns at once where there are no items, and what happens after it.
  unfoldable pub run_with_concurrency : ℕ → List (Happening R) → Pool R
  run_with_concurrency limit [] =
      let n = lane_count limit items in
      if items == 0 then new_pool 0 else begin_lanes n 0 (new_pool n)
  run_with_concurrency limit (h ∷ hs) = happen h (run_with_concurrency limit hs)
