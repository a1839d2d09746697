-- ===== src/Backfill/Concurrency/Laws.antt =====
-- No item is left out or taken twice, however the lanes interleave.
use ariai_exam.Prelude.{
  ℕ, zero, suc, ◌+◌, ◌<◌, ◌≤◌, ◌≡◌, ◌∙◌, inl, inr, refl, ap, arith, min, max, List, [], ◌∷◌, ◌++◌,
  ltb, map_set, map_get, map_get-map_set, nat_eq, length, Option, none, some, Bool, true, false,
  ◌||◌, ◌==◌, Bool-cases, if_split, if◌then◌else◌, All, ltb→lt,
}
use ariai_exam.Prelude.Occurs.{In, In-right, All-In-left, All-map_set, All-map_get}
use ariai_exam.Backfill.Concurrency.{
  Lane, fresh, done, busy, threw, new_pool, note_answer, Pool, Happening, returns, throws,
  lane_count, lane_at, set_lane, take_next, begin_lanes, returned, thrown, happen,
  run_with_concurrency,
}
use ariai_exam.Backfill.Concurrency.Lanes.{
  upto, in_hand, held, is_some, is_done, any_done, length-set_lane, held-set_lane_new,
  held-set_lane_old, any_done-set_lane, or_right, busy_inside, FreshFrom, FreshFrom-set_lane,
  fresh_lanes_lem, ended_loops,
}

module _ {ℓ} {R : Type ℓ} (items n : ℕ) where
  -- Items are taken in their order, each one taken has a result or is in the hands of a lane, a result is what the worker
  -- called for its item has returned, and a loop ends only where all have been taken.
  record Sound (p : Pool R) : Type ℓ where
    in_order : p.called ≡ upto p.next_index
    within : p.next_index ≤ items
    found : (i : ℕ) → i < p.next_index → (is_some (map_get i p.results) || held i p.lanes) ≡ true
    ended : any_done p.lanes ≡ true → p.next_index ≡ items
    size : length p.lanes ≡ n
    answered : All (λ a. In a p.answers) p.results

  still_found :
      (i k : ℕ) (lane : Lane) (p : Pool R)
      → (in_hand i (lane_at k p.lanes) ≡ true
          → (is_some (map_get i p.results) || held i (set_lane k lane p.lanes)) ≡ true)
      → (is_some (map_get i p.results) || held i p.lanes) ≡ true
      → (is_some (map_get i p.results) || held i (set_lane k lane p.lanes)) ≡ true
  still_found i k lane p free h = elim (Bool-cases (in_hand i (lane_at k p.lanes))) [
    | inl mine ↦ free mine
    | inr other ↦
        either (is_some (map_get i p.results)) h (held-set_lane_old i k lane p.lanes other)
  ]
    where
      either :
          (b : Bool)
          → (b || held i p.lanes) ≡ true
          → (held i p.lanes ≡ true → held i (set_lane k lane p.lanes) ≡ true)
          → (b || held i (set_lane k lane p.lanes)) ≡ true
      either true h g = refl
      either false h g = g h

  -- Lane `k` goes on, where it holds nothing that has no result.
  take_next-Sound :
      (k : ℕ) (p : Pool R)
      → k < length p.lanes
      → ((i : ℕ) → in_hand i (lane_at k p.lanes) ≡ true → is_some (map_get i p.results) ≡ true)
      → Sound p
      → Sound (take_next items k p)
  take_next-Sound k p inside free s =
      if_split Sound (ltb p.next_index items)
        (λ more. record {
          in_order = ap (λ xs. xs ++ (p.next_index ∷ [])) s.in_order;
          within = ltb→lt p.next_index items more;
          found = λ i lt. elim (Bool-cases (p.next_index == i)) [
            | inl here ↦
                or_right (is_some (map_get i p.results)) _
                  (held-set_lane_new i k (busy p.next_index) p.lanes inside here)
            | inr before ↦
                still_found i k (busy p.next_index) p (λ h. rw (free i h) refl)
                  (s.found i (ground (arith, before, lt)))
          ];
          ended = λ e.
              let all = s.ended (any_done-set_lane k (busy p.next_index) p.lanes refl e) in
              absurd (ground (arith, more, all));
          size = length-set_lane k (busy p.next_index) p.lanes ∙ s.size;
          answered = s.answered;
        })
        (λ last. record {
          in_order = s.in_order;
          within = s.within;
          found = λ i lt. still_found i k done p (λ h. rw (free i h) refl) (s.found i lt);
          ended = λ e. let le = s.within in ground (arith, last, le);
          size = length-set_lane k done p.lanes ∙ s.size;
          answered = s.answered;
        })

  -- The result of the item that lane `k` holds.
  returned-Sound :
      (k : ℕ) (r : R) (lane : Lane) (p : Pool R)
      → lane_at k p.lanes ≡ lane
      → Sound p
      → Sound (returned items k r lane (note_answer r lane p))
  returned-Sound k r fresh p e s = s
  returned-Sound k r done p e s = s
  returned-Sound k r (threw i) p e s = s
  returned-Sound k r (busy i) p e s =
      take_next-Sound k
        (record p { results = map_set i r p.results; answers = p.answers ++ ((i, r) ∷ []) })
        (busy_inside i k p.lanes e)
        (λ j h.
          let hit : (i == j) ≡ true = rw e at h in rw (map_get-map_set i j r p.results, hit) refl)
        (record {
          in_order = s.in_order;
          within = s.within;
          found = λ j lt. elim (Bool-cases (i == j)) [
            | inl hit ↦ rw (map_get-map_set i j r p.results, hit) refl
            | inr miss ↦ rw (map_get-map_set i j r p.results, miss) (s.found j lt)
          ];
          ended = s.ended;
          size = s.size;
          answered =
              All-map_set (λ a. In a (p.answers ++ ((i, r) ∷ []))) i r p.results
                (In-right (i, r) p.answers ((i, r) ∷ []) (inl refl))
                (All-In-left p.answers p.results ((i, r) ∷ []) s.answered);
        })

  thrown-Sound :
      (k : ℕ) (lane : Lane) (p : Pool R)
      → lane_at k p.lanes ≡ lane
      → Sound p
      → Sound (thrown items k lane p)
  thrown-Sound k fresh p e s = s
  thrown-Sound k done p e s = s
  thrown-Sound k (threw i) p e s = s
  thrown-Sound k (busy i) p e s = record {
    in_order = s.in_order;
    within = s.within;
    found = λ j lt.
        still_found j k (threw i) p
          (λ h.
            or_right (is_some (map_get j p.results)) _
              (held-set_lane_new j k (threw i) p.lanes (busy_inside i k p.lanes e) (rw e at h)))
          (s.found j lt);
    ended = λ h. s.ended (any_done-set_lane k (threw i) p.lanes refl h);
    size = length-set_lane k (threw i) p.lanes ∙ s.size;
    answered = s.answered;
  }

  happen-Sound : (h : Happening R) (p : Pool R) → Sound p → Sound (happen items h p)
  happen-Sound (returns k r) p s = returned-Sound k r (lane_at k p.lanes) p refl s
  happen-Sound (throws k) p s = thrown-Sound k (lane_at k p.lanes) p refl s

  begin_lanes-Sound :
      (left k : ℕ) (p : Pool R)
      → k + left ≤ length p.lanes
      → FreshFrom k p.lanes
      → Sound p
      → Sound (begin_lanes items left k p)
  unfolding begin_lanes
  begin_lanes-Sound zero k p inside f s = s
  begin_lanes-Sound (suc left) k p inside f s =
      begin_lanes-Sound left (suc k) (take_next items k p)
        (if_split (λ (p' : Pool R). suc k + left ≤ length p'.lanes) (ltb p.next_index items)
          (λ _. omega (arith, length-set_lane k (busy p.next_index) p.lanes))
          (λ _. omega (arith, length-set_lane k done p.lanes)))
        (if_split (λ (p' : Pool R). FreshFrom (suc k) p'.lanes) (ltb p.next_index items)
          (λ _. FreshFrom-set_lane k (busy p.next_index) p.lanes f)
          (λ _. FreshFrom-set_lane k done p.lanes f))
        (take_next-Sound k p (omega arith)
          (λ i h. absurd (ground (arith, (f k (omega arith) (omega arith)), h))) s)

-- No lane where there are no items, and otherwise one at least and `limit` at most, but for a `limit` of 0.
abbrev pub lanes_begun : ℕ → ℕ → ℕ
lanes_begun limit items = if items == 0 then 0 else max 1 (min limit items)

new_pool-Sound {ℓ} : {R : Type ℓ} (items n : ℕ) → Sound {R = R} items n (new_pool n)
new_pool-Sound items n =
    let (l, f, d) = fresh_lanes_lem n in
    record {
      in_order = refl;
      within = omega arith;
      found = λ i lt. absurd (omega arith);
      ended = λ e. absurd (ground (arith, d, e));
      size = l;
      answered = tt;
    }

run-Sound {ℓ} :
    {R : Type ℓ} (items limit : ℕ) (hs : List (Happening R))
    → Sound items (lanes_begun limit items) (run_with_concurrency items limit hs)
unfolding run_with_concurrency
run-Sound {R = R} items limit [] = elim (Bool-cases (items == 0)) [
  | inl nothing ↦ rw nothing (new_pool-Sound items 0)
  | inr some_items ↦
      let n = lane_count limit items in
      let (l, f, d) = fresh_lanes_lem n in
      rw some_items
        (begin_lanes-Sound items n n 0 (new_pool n) (omega (arith, l)) f (new_pool-Sound items n))
]
run-Sound items limit (h ∷ hs) =
    happen-Sound items (lanes_begun limit items) h (run_with_concurrency items limit hs)
      (run-Sound items limit hs)

is_some_lem {ℓ} : {A : Type ℓ} (o : Option A) → is_some o ≡ true → (a : A) × (o ≡ some a)
is_some_lem none h = cc
is_some_lem (some a) h = (a, refl)

-- Whatever the workers return or throw, and in whichever order: there is no lane where there are no items, and
-- otherwise there are as many as the lesser of `limit` and the items, but at least one; workers are called for the items
-- in their order and for none twice; and once every loop has ended, a worker has been called for each item, and under
-- its index stands what the worker called for it has returned.
pub run_with_concurrency_lem {ℓ} :
    {R : Type ℓ} (items limit : ℕ) (hs : List (Happening R))
    → let p = run_with_concurrency items limit hs in
      (length p.lanes ≡ lanes_begun limit items)
      × (p.called ≡ upto p.next_index)
      × (All (λ lane. is_done lane ≡ true) p.lanes
          → (p.called ≡ upto items)
            × ((i : ℕ)
                → i < items
                → (r : R) × (map_get i p.results ≡ some r) × In (i, r) p.answers))
run_with_concurrency_lem {R = R} items limit hs =
    let p = run_with_concurrency items limit hs in
    let s = run-Sound items limit hs in
    (
      s.size,
      s.in_order,
      λ over.
          let all = all_taken (run_with_concurrency items limit hs) s over in
          (
            s.in_order ∙ ap upto all,
            λ i lt.
                let (r, e) = is_some_lem (map_get i p.results) (
                  left_one (is_some (map_get i p.results)) (s.found i (omega (arith, all)))
                    (ended_loops i p.lanes over)) in
                (r, e, All-map_get (λ a. In a p.answers) i r p.results s.answered e),
          ),
    )
  where
    one_ended :
        (lanes : List Lane)
        → 0 < length lanes
        → All (λ lane. is_done lane ≡ true) lanes
        → any_done lanes ≡ true
    one_ended [] h over = absurd (omega arith)
    one_ended (lane ∷ lanes) h over = rw over.0 refl

    left_one : (b : Bool) {c : Bool} → (b || c) ≡ true → c ≡ false → b ≡ true
    left_one true h e = refl
    left_one false h e = absurd (ground (arith, h, e))

    all_taken :
        (p : Pool R)
        → Sound items (lanes_begun limit items) p
        → All (λ lane. is_done lane ≡ true) p.lanes
        → p.next_index ≡ items
    all_taken p s over = elim (Bool-cases (items == 0)) [
      | inl nothing ↦ let le = s.within in ground (arith, nothing, le)
      | inr some_items ↦
          let size : length p.lanes ≡ max 1 (min limit items) = rw some_items at s.size in
          s.ended (one_ended p.lanes (omega (arith, size)) over)
    ]
