-- ===== src/Binance/WsClient/Handles.antt =====
-- Timers and connection of `BinanceWsClient`, and what its methods make of them.
use mathlib.Core.Path.{subst}
use Prim.Native.String.{String}
use ariai_exam.Prelude.{
  ℕ, suc, ◌-◌, ◌≡◌, ◌≢◌, ◌⊎◌, refl, sym, ap, ◌∙◌, arith, inl, inr, true, false, not, ◌||◌, List, [],
  ◌∷◌, ◌++◌, Option, none, some, Result, ltb, if_split, when_none, when_none_split,
}
use ariai_exam.Binance.WsClient.{
  ReadyState, opening, opened, terminated, closing, WsClient, WsError, clear_timer, connect, start,
  begin, stop, start_heartbeat, handle_open, schedule_reconnect, handle_close, check_heartbeat,
}
use ariai_exam.Binance.WsClient.Events.{or_unchanged}

abbrev pub to_list : Option ℕ → List ℕ
to_list none = []
to_list (some id) = id ∷ []

-- Before a socket opens and after it closes, none of the timers of a connection is pending.
abbrev pub Fresh : Option ReadyState → Option ℕ → List ℕ → Type 0
Fresh (some opened) heartbeat stables = Unit {0}
Fresh (some terminated) heartbeat stables = Unit {0}
Fresh _ heartbeat stables = (heartbeat ≡ none) × (stables ≡ [])

-- Stopped, never started, or with a socket or a reconnection to come, and never both.
abbrev pub Going : WsClient → Type 0
Going c =
    (c.stopping ≡ true)
    ⊎ ((c.ws ≡ none) × (c.reconnect_timer ≡ none) × (c.started ≡ false))
    ⊎ ((c.ws ≢ none) × (c.ws ≢ some closing) × (c.reconnect_timer ≡ none))
    ⊎ ((c.ws ≡ none) × (c.reconnect_timer ≢ none))

pub record WellFormed (c : WsClient) : Type 0 where
  pub one_heartbeat : c.heartbeats ≡ to_list c.heartbeat_timer
  pub one_reconnect : c.reconnects ≡ to_list c.reconnect_timer
  pub stable : (c.stables ≡ []) ⊎ (c.stables ≡ to_list c.stable_timer)
  pub fresh : Fresh c.ws c.heartbeat_timer c.stables
  pub going : Going c

clear_timer-to_list : (o : Option ℕ) → clear_timer o (to_list o) ≡ []
clear_timer-to_list none = refl
clear_timer-to_list (some id) = ground arith

clear_timer-nil : (o : Option ℕ) → clear_timer o [] ≡ []
clear_timer-nil none = refl
clear_timer-nil (some id) = refl

cleared : (o : Option ℕ) {ids : List ℕ} → ids ≡ to_list o → clear_timer o ids ≡ []
cleared o e = ap (clear_timer o) e ∙ clear_timer-to_list o

cleared_stable :
    (o : Option ℕ) {ids : List ℕ} → (ids ≡ []) ⊎ (ids ≡ to_list o) → clear_timer o ids ≡ []
cleared_stable o (inl e) = ap (clear_timer o) e ∙ clear_timer-nil o
cleared_stable o (inr e) = cleared o e

pub alone : {id : ℕ} (ids : List ℕ) (o : Option ℕ) → id ∷ ids ≡ to_list o → ids ≡ []
alone ids none h = absurd (ground (arith, h))
alone [] (some id) h = refl
alone (next ∷ ids) (some id) h = absurd (ground (arith, h))

pub fresh_parts :
    (ws : Option ReadyState) {o : Option ℕ} {ids : List ℕ}
    → (ws ≡ none) ⊎ (ws ≡ some opening)
    → Fresh ws o ids
    → (o ≡ none) × (ids ≡ [])
fresh_parts none e f = f
fresh_parts (some opening) e f = f
fresh_parts (some closing) e f = f
fresh_parts (some opened) e f = absurd (ground (arith, e))
fresh_parts (some terminated) e f = absurd (ground (arith, e))

begin-WellFormed :
    (streams : List String) (c : WsClient)
    → c.ws ≡ none
    → c.reconnect_timer ≡ none
    → WellFormed c
    → WellFormed (begin streams c)
unfolding connect
begin-WellFormed streams c e k h = record {
  one_heartbeat = h.one_heartbeat;
  one_reconnect = h.one_reconnect;
  stable = h.stable;
  fresh = fresh_parts c.ws (inl e) h.fresh;
  going = inr (inr (inl ((λ n. cc), (λ n. cc), k)));
}

pub no_socket :
    (ws : Option ReadyState) (timer : Option ℕ)
    → (not (when_none ws true false) || not (when_none timer true false)) ≡ false
    → ws ≡ none
no_socket none timer e = refl
no_socket (some state) timer e = absurd (ground (arith, e))

no_timer :
    (ws : Option ReadyState) (timer : Option ℕ)
    → (not (when_none ws true false) || not (when_none timer true false)) ≡ false
    → timer ≡ none
no_timer none none e = refl
no_timer none (some id) e = absurd (ground (arith, e))
no_timer (some state) timer e = absurd (ground (arith, e))

pub start-WellFormed :
    (streams : List String) (c : WsClient)
    → WellFormed c
    → WellFormed (or_unchanged c (start streams c))
unfolding start
start-WellFormed [] c h =
    if_split (λ (d : Result WsError WsClient). WellFormed (or_unchanged c d))
      (not (when_none c.ws true false) || not (when_none c.reconnect_timer true false)) (λ _. h)
      (λ _. h)
start-WellFormed (stream ∷ streams) c h =
    if_split (λ (d : Result WsError WsClient). WellFormed (or_unchanged c d))
      (not (when_none c.ws true false) || not (when_none c.reconnect_timer true false)) (λ _. h)
      (λ e.
        begin-WellFormed (stream ∷ streams) c (no_socket c.ws c.reconnect_timer e)
          (no_timer c.ws c.reconnect_timer e) h)

pub stop-WellFormed : (c : WsClient) → WellFormed c → WellFormed (stop c)
unfolding stop
stop-WellFormed c h =
    let none_left = cleared_stable c.stable_timer h.stable in
    record {
      one_heartbeat = cleared c.heartbeat_timer h.one_heartbeat;
      one_reconnect = cleared c.reconnect_timer h.one_reconnect;
      stable = inl none_left;
      fresh =
          when_none_split
            (λ (o : Option ReadyState). Fresh o none (clear_timer c.stable_timer c.stables)) c.ws
            (λ _. (refl, none_left)) (λ _ _. (refl, none_left));
      going = inl refl;
    }

Going-handle_open :
    (now : ℕ) (c : WsClient)
    → c.ws ≡ some opening
    → Going c
    → Going (handle_open now (record c { ws = some opened }))
unfolding handle_open start_heartbeat
Going-handle_open now c e (inl g) = inl g
Going-handle_open now c e (inr (inl (g, k, l))) = absurd (ground (arith, e, g))
Going-handle_open now c e (inr (inr (inl (g, q, k)))) = inr (inr (inl ((λ n. cc), (λ n. cc), k)))
Going-handle_open now c e (inr (inr (inr (g, k)))) = absurd (ground (arith, e, g))

pub handle_open-WellFormed :
    (now : ℕ) (c : WsClient)
    → c.ws ≡ some opening
    → WellFormed c
    → WellFormed (handle_open now (record c { ws = some opened }))
unfolding handle_open start_heartbeat
handle_open-WellFormed now c e h =
    let parts = fresh_parts c.ws (inr e) h.fresh in
    record {
      one_heartbeat =
          ap (λ ids. ids ++ (c.next_id ∷ [])) (cleared c.heartbeat_timer h.one_heartbeat);
      one_reconnect = h.one_reconnect;
      stable = inr (ap (λ ids. ids ++ (suc c.next_id ∷ [])) parts.1);
      fresh = tt;
      going = Going-handle_open now c e h.going;
    }

schedule_reconnect-WellFormed :
    (random : ℕ) (c : WsClient)
    → c.ws ≡ none
    → c.heartbeat_timer ≡ none
    → c.heartbeats ≡ []
    → c.stables ≡ []
    → c.reconnects ≡ to_list c.reconnect_timer
    → WellFormed (schedule_reconnect random c)
unfolding schedule_reconnect
schedule_reconnect-WellFormed random c e t hb sb rc =
    let beats = hb ∙ sym (ap to_list t) in
    let f = subst (λ ws. Fresh ws c.heartbeat_timer c.stables) (sym e) (t, sb) in
    if_split (λ (d : WsClient). WellFormed d) c.stopping
      (λ stopping. record {
        one_heartbeat = beats;
        one_reconnect = rc;
        stable = inl sb;
        fresh = f;
        going = inl stopping;
      })
      (λ _.
        when_none_split (λ (d : WsClient). WellFormed d) c.reconnect_timer
          (λ k. record {
            one_heartbeat = beats;
            one_reconnect = ap (λ ids. ids ++ (c.next_id ∷ [])) (rc ∙ ap to_list k);
            stable = inl sb;
            fresh = f;
            going = inr (inr (inr (e, λ n. cc)));
          })
          (λ id k. record {
            one_heartbeat = beats;
            one_reconnect = rc;
            stable = inl sb;
            fresh = f;
            going = inr (inr (inr (e, λ n. absurd (ground (arith, k, n)))));
          }))

pub handle_close-WellFormed :
    (now random code : ℕ) (c : WsClient)
    → WellFormed c
    → WellFormed (handle_close now random code c)
unfolding handle_close
handle_close-WellFormed now random code c h =
    let beats = cleared c.heartbeat_timer h.one_heartbeat in
    let none_left = cleared_stable c.stable_timer h.stable in
    if_split (λ (d : WsClient). WellFormed d) c.stopping
      (λ stopping. record {
        one_heartbeat = beats;
        one_reconnect = h.one_reconnect;
        stable = inl none_left;
        fresh = (refl, none_left);
        going = inl stopping;
      })
      (λ _. schedule_reconnect-WellFormed random _ refl refl beats none_left h.one_reconnect)

pub check_heartbeat-WellFormed :
    (now : ℕ) (c : WsClient) → WellFormed c → WellFormed (check_heartbeat now c)
unfolding check_heartbeat
check_heartbeat-WellFormed now c h =
    when_none_split (λ (d : WsClient). WellFormed d) c.ws (λ _. h)
      (λ state e.
        if_split (λ (d : WsClient). WellFormed d)
          (ltb c.options.heartbeat_timeout_ms (now - c.last_activity_at))
          (λ _. record {
            one_heartbeat = h.one_heartbeat;
            one_reconnect = h.one_reconnect;
            stable = h.stable;
            fresh = tt;
            going = elsewhere state e h.going;
          })
          (λ _. h))
  where
    elsewhere :
        (state : ReadyState)
        → c.ws ≡ some state
        → Going c
        → Going (record c { ws = some terminated })
    elsewhere state e (inl g) = inl g
    elsewhere state e (inr (inl (g, k, l))) = absurd (ground (arith, e, g))
    elsewhere state e (inr (inr (inl (g, q, k)))) = inr (inr (inl ((λ n. cc), (λ n. cc), k)))
    elsewhere state e (inr (inr (inr (g, k)))) = absurd (ground (arith, e, g))
