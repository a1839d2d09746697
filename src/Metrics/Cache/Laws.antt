-- ===== src/Metrics/Cache/Laws.antt =====
-- The computations and the refreshes of metrics-cache.service.ts, over histories of its events.
use mathlib.Core.Option.{some-injective}
use mathlib.Core.Path.{subst}
use ariai_exam.Prelude.{
  ℕ, suc, ◌+◌, ◌≡◌, refl, ap, sym, ◌∙◌, arith, Bool, true, false, List, [], ◌∷◌, ◌++◌, Option, none,
  some, Result, ok, err, if_split, map_get, map_set, map_delete, map_keys, Distinct,
  Distinct-map_set, contains, sum_of, sum_of-append, Eq, Bool-cases, Option-cases, inl, inr, any,
}
use ariai_exam.Config.{Symbol, same_symbol}
use ariai_exam.Backfill.Service.{symbol_eq, same_symbol_iff}
use ariai_exam.Metrics.Cache.{
  Waiter, refresh, candle_closed, requested, Cache, CacheEvent, tick, kline_closed, get_overview,
  database_answers, compute_once, refresh_from, refresh_all, answer_or_compute, publish, resume,
  resume_all, store, outcome_of, settle, handle, after, take_out,
}

-- Is it the loop of refreshAll that waits?
abbrev pub weight : Waiter → ℕ
weight (refresh symbols) = 1
weight candle_closed = 0
weight requested = 0

-- The loops of refreshAll that wait for some task.
abbrev pub refreshes : List (Symbol × List Waiter) → ℕ
refreshes m = sum_of (λ p. sum_of weight p.1) m

abbrev pub flag : Bool → ℕ
flag true = 1
flag false = 0

module _ {ℓ κ} {K : Type ℓ} {V : Type κ} ⦃e : Eq K⦄ where
  contains-map_delete :
      (k j : K) (m : List (K × V))
      → contains j (map_keys m) ≡ false
      → contains j (map_keys (map_delete k m)) ≡ false
  unfolding map_delete
  contains-map_delete k j [] h = h
  contains-map_delete k j ((i, v) ∷ m) h = ground (arith, contains-map_delete k j m)

  Distinct-map_delete :
      (k : K) (m : List (K × V)) → Distinct (map_keys m) → Distinct (map_keys (map_delete k m))
  unfolding map_delete
  Distinct-map_delete k [] d = d
  Distinct-map_delete k ((i, v) ∷ m) d =
      ground (arith, contains-map_delete k i m d.0, Distinct-map_delete k m d.1)

  -- A sum over the values of a map, where one is put in, or taken out.
  sum_of-map_set :
      (f : V → ℕ) (k : K) (v : V) (old : ℕ) (m : List (K × V))
      → elim (map_get k m) [ none ↦ 0 | some w ↦ f w ] ≡ old
      → sum_of (λ p. f p.1) (map_set k v m) + old ≡ sum_of (λ p. f p.1) m + f v
  unfolding map_set map_get
  sum_of-map_set f k v old [] h = omega (arith, h)
  sum_of-map_set f k v old ((i, w) ∷ m) h = elim (Bool-cases (e.beq i k)) [
    | inl hit ↦ rw hit (let same : f w ≡ old = rw hit at h in omega (arith, same))
    | inr miss ↦ rw miss (omega (arith, sum_of-map_set f k v old m (rw miss at h)))
  ]

  sum_of-map_delete :
      (f : V → ℕ) (k : K) (v : V) (m : List (K × V))
      → map_get k m ≡ some v
      → sum_of (λ p. f p.1) (map_delete k m) + f v ≡ sum_of (λ p. f p.1) m
  unfolding map_delete map_get
  sum_of-map_delete f k v [] h = cc
  sum_of-map_delete f k v ((i, w) ∷ m) h = elim (Bool-cases (e.beq i k)) [
    | inl hit ↦
        rw hit (
          let same : some w ≡ some v = rw hit at h in omega (arith, ap f (some-injective w v same)))
    | inr miss ↦ rw miss (omega (arith, sum_of-map_delete f k v m (rw miss at h)))
  ]

-- The keys of a map of symbols.
module _ {ℓ} {V : Type ℓ} where
  map_keys-map_set_new :
      (k : Symbol) (v : V) (m : List (Symbol × V))
      → map_get k m ≡ none
      → map_keys (map_set k v m) ≡ map_keys m ++ (k ∷ [])
  unfolding map_set map_get
  map_keys-map_set_new k v [] h = refl
  map_keys-map_set_new k v ((i, w) ∷ m) h = elim (Bool-cases (same_symbol i k)) [
    | inl hit ↦ absurd (let e : some w ≡ none = rw hit at h in cc)
    | inr miss ↦ rw miss (ap (λ ks. i ∷ ks) (map_keys-map_set_new k v m (rw miss at h)))
  ]

  map_keys-map_set_old :
      (k : Symbol) (v w : V) (m : List (Symbol × V))
      → map_get k m ≡ some w
      → map_keys (map_set k v m) ≡ map_keys m
  unfolding map_set map_get
  map_keys-map_set_old k v w [] h = cc
  map_keys-map_set_old k v w ((i, x) ∷ m) h = elim (Bool-cases (same_symbol i k)) [
    | inl hit ↦ rw hit (ap (λ j. j ∷ map_keys m) (sym ((same_symbol_iff i k).0 hit)))
    | inr miss ↦ rw miss (ap (λ ks. i ∷ ks) (map_keys-map_set_old k v w m (rw miss at h)))
  ]

  map_keys-map_delete :
      (k : Symbol) (m : List (Symbol × V)) → map_keys (map_delete k m) ≡ take_out k (map_keys m)
  unfolding map_delete
  map_keys-map_delete k [] = refl
  map_keys-map_delete k ((i, w) ∷ m) = elim (Bool-cases (same_symbol i k)) [
    | inl hit ↦ rw hit refl
    | inr miss ↦ rw miss (ap (λ ks. i ∷ ks) (map_keys-map_delete k m))
  ]

module _ {ℓ} {O : Type ℓ} where
  -- The database works on one computation for a symbol at most, those are the ones that `inflight` has, and
  -- `isRefreshing` says whether one loop of refreshAll waits for one of them.
  abbrev pub OneEach : Cache O → Type 0
  OneEach c =
      Distinct c.running
      × (c.running ≡ map_keys c.inflight)
      × (refreshes c.inflight ≡ flag c.is_refreshing)

  -- The same while `k` loops of refreshAll go on.
  abbrev Tidy : ℕ → Cache O → Type 0
  Tidy k c =
      (Distinct (map_keys c.inflight) × (c.running ≡ map_keys c.inflight))
      × (refreshes c.inflight + k ≡ flag c.is_refreshing)

  compute_once-Tidy :
      (symbol : Symbol) (waiter : Waiter) (k : ℕ) (c : Cache O)
      → Tidy (weight waiter + k) c
      → Tidy k (compute_once symbol waiter c)
  compute_once-Tidy symbol waiter k c (d, h) = elim (Option-cases (map_get symbol c.inflight)) [
    | inl none' ↦ rw none' (
      (
        Distinct-map_set symbol (waiter ∷ []) c.inflight d.0,
        ap (λ ks. ks ++ (symbol ∷ [])) d.1
            ∙ sym (map_keys-map_set_new symbol (waiter ∷ []) c.inflight (rw none' refl)),
      ),
      omega (
        arith,
        h,
        sum_of-map_set (sum_of weight) symbol (waiter ∷ []) 0 c.inflight (rw none' refl),
      ),
    )
    | inr (ws, some') ↦ rw some' (
      (
        Distinct-map_set symbol (ws ++ (waiter ∷ [])) c.inflight d.0,
        d.1 ∙ sym (map_keys-map_set_old symbol (ws ++ (waiter ∷ [])) ws c.inflight (rw some' refl)),
      ),
      omega (
        arith,
        h,
        sum_of-append weight ws (waiter ∷ []),
        sum_of-map_set (sum_of weight) symbol (ws ++ (waiter ∷ [])) (sum_of weight ws) c.inflight
            (rw some' refl),
      ),
    )
  ]

  refresh_from-Tidy :
      (symbols : List Symbol) (k : ℕ) (c : Cache O)
      → Tidy (suc k) c
      → Tidy k (refresh_from symbols c)
  refresh_from-Tidy [] k c (d, h) = (d, ground (arith, h))
  refresh_from-Tidy (symbol ∷ symbols) k c t =
      compute_once-Tidy symbol (refresh symbols) k c (t.0, omega (arith, t.1))

  refresh_all-Tidy : (c : Cache O) → Tidy 0 c → Tidy 0 (refresh_all c)
  refresh_all-Tidy c (d, h) =
      if_split (Tidy 0) c.is_refreshing (λ _. (d, h))
        (λ idle.
          refresh_from-Tidy c.symbols 0 (record c { is_refreshing = true })
            (d, ground (arith, h, idle)))

  publish-Tidy : (outcome : Option O) (k : ℕ) (c : Cache O) → Tidy k c → Tidy k (publish outcome c)
  publish-Tidy none k c t = t
  publish-Tidy (some overview) k c t = t

  resume-Tidy :
      (outcome : Option O) (waiter : Waiter) (k : ℕ) (c : Cache O)
      → Tidy (weight waiter + k) c
      → Tidy k (resume outcome waiter c)
  resume-Tidy outcome (refresh symbols) k c t =
      refresh_from-Tidy symbols k (publish outcome c)
        (publish-Tidy outcome (suc k) c (t.0, omega (arith, t.1)))
  resume-Tidy outcome candle_closed k c t = publish-Tidy outcome k c (t.0, omega (arith, t.1))
  resume-Tidy outcome requested k c t = (t.0, omega (arith, t.1))

  resume_all-Tidy :
      (outcome : Option O) (waiters : List Waiter) (c : Cache O)
      → Tidy (sum_of weight waiters) c
      → Tidy 0 (resume_all outcome waiters c)
  resume_all-Tidy outcome [] c t = t
  resume_all-Tidy outcome (waiter ∷ waiters) c t =
      resume_all-Tidy outcome waiters (resume outcome waiter c)
        (resume-Tidy outcome waiter (sum_of weight waiters) c t)

  answer-Tidy :
      (symbol : Symbol) (o : Option O) (c : Cache O)
      → Tidy 0 c
      → Tidy 0 (answer_or_compute symbol o c)
  answer-Tidy symbol (some cached) c t = t
  answer-Tidy symbol none c t = compute_once-Tidy symbol requested 0 c t

  module _ {κ} {E : Type κ} where
    store-Tidy :
        (symbol : Symbol) (r : Result E O) (waiters : List Waiter) (c : Cache O)
        → map_get symbol c.inflight ≡ some waiters
        → Tidy 0 c
        → Tidy (sum_of weight waiters) (store symbol r c)
    store-Tidy symbol (ok overview) waiters c e (d, h) = (
      (
        Distinct-map_delete symbol c.inflight d.0,
        ap (take_out symbol) d.1 ∙ sym (map_keys-map_delete symbol c.inflight),
      ),
      omega (arith, h, sum_of-map_delete (sum_of weight) symbol waiters c.inflight e),
    )
    store-Tidy symbol (err x) waiters c e (d, h) = (
      (
        Distinct-map_delete symbol c.inflight d.0,
        ap (take_out symbol) d.1 ∙ sym (map_keys-map_delete symbol c.inflight),
      ),
      omega (arith, h, sum_of-map_delete (sum_of weight) symbol waiters c.inflight e),
    )

    settle-Tidy :
        (symbol : Symbol) (r : Result E O) (o : Option (List Waiter)) (c : Cache O)
        → map_get symbol c.inflight ≡ o
        → Tidy 0 c
        → Tidy 0 (settle symbol r o c)
    settle-Tidy symbol r none c e t = t
    settle-Tidy symbol r (some waiters) c e t =
        resume_all-Tidy (outcome_of r) waiters (store symbol r c)
          (store-Tidy symbol r waiters c e t)

    handle-Tidy : (event : CacheEvent O E) (c : Cache O) → Tidy 0 c → Tidy 0 (handle event c)
    handle-Tidy tick c t = refresh_all-Tidy c t
    handle-Tidy (kline_closed symbol) c t =
        if_split (Tidy 0) (any (λ other. same_symbol other symbol) c.symbols)
          (λ _. compute_once-Tidy symbol candle_closed 0 c t) (λ _. t)
    handle-Tidy (get_overview symbol) c t = answer-Tidy symbol (map_get symbol c.snapshots) c t
    handle-Tidy (database_answers symbol r) c t =
        if_split (Tidy 0) (contains symbol c.running)
          (λ _. settle-Tidy symbol r (map_get symbol c.inflight) c refl t) (λ _. t)

    after_lem :
        (symbols : List Symbol) (events : List (CacheEvent O E)) → Tidy 0 (after symbols events)
    unfolding after
    after_lem symbols [] = ((tt, refl), refl)
    after_lem symbols (event ∷ events) =
        handle-Tidy event (after symbols events) (after_lem symbols events)

    -- After any history of ticks, closed candles, requests and answers of the database, failures included: the
    -- database works on at most one computation for a symbol, `inflight` has exactly those, and `isRefreshing` is set
    -- exactly where one loop of refreshAll waits for one of them, so that no loop is started beside it and none is lost
    -- with the flag set.
    pub after-OneEach :
        (symbols : List Symbol) (events : List (CacheEvent O E)) → OneEach (after symbols events)
    after-OneEach symbols events =
        let ((d, e), h) = after_lem symbols events in
        (subst Distinct (sym e) d, e, omega (arith, h))
