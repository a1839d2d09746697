-- ===== src/Binance/WsClient/Histories.antt =====
-- What the events of `BinanceWsClient` make of its timers and its connection.
use mathlib.Core.Path.{subst}
use ariai_exam.Prelude.{
  ℕ, ◌≡◌, ◌⊎◌, refl, sym, ap, ◌∙◌, arith, inl, inr, Bool, true, false, All, List, [], ◌∷◌, Option,
  none, some, if_split,
}
use ariai_exam.Binance.WsClient.{
  ReadyState, opening, opened, terminated, closing, WsClient, connect, fire_reconnect, fire_stable,
}
use ariai_exam.Binance.WsClient.Events.{
  WsEvent, starts, stops, stop_times_out, old_opens, old_closes, opens, pings, fails, receives,
  closes, heartbeat_fires, reconnect_fires, stable_fires, on_open, on_close, on_old_open,
  on_old_close, on_timeout, on_heartbeat, may_still_open, is_among, step,
}
use ariai_exam.Binance.WsClient.Handles.{
  to_list, Fresh, Going, WellFormed, alone, fresh_parts, start-WellFormed, stop-WellFormed,
  handle_open-WellFormed, handle_close-WellFormed, check_heartbeat-WellFormed,
}

-- A reconnection is due only where there is no socket.
pub no_socket_yet :
    {timer : ℕ} {timers : List ℕ} (c : WsClient)
    → timer ∷ timers ≡ to_list c.reconnect_timer
    → c.stopping ≡ false
    → Going c
    → c.ws ≡ none
no_socket_yet c e s (inl g) = absurd (ground (arith, s, g))
no_socket_yet c e s (inr (inl (g, k, l))) = g
no_socket_yet c e s (inr (inr (inl (g, q, k)))) = absurd (ground (arith, e ∙ ap to_list k))
no_socket_yet c e s (inr (inr (inr (g, k)))) = g

fire_reconnect-WellFormed :
    (timers : List ℕ) (c : WsClient)
    → c.reconnects ≡ timers
    → WellFormed c
    → WellFormed (fire_reconnect timers c)
unfolding fire_reconnect connect
fire_reconnect-WellFormed [] c e h = h
fire_reconnect-WellFormed (timer ∷ timers) c e h =
    let pending = sym e ∙ h.one_reconnect in
    let none_left = alone timers c.reconnect_timer pending in
    if_split (λ (d : WsClient). WellFormed d) c.stopping
      (λ stopping. record {
        one_heartbeat = h.one_heartbeat;
        one_reconnect = none_left;
        stable = h.stable;
        fresh = h.fresh;
        going = inl stopping;
      })
      (λ going_on. record {
        one_heartbeat = h.one_heartbeat;
        one_reconnect = none_left;
        stable = h.stable;
        fresh = fresh_parts c.ws (inl (no_socket_yet c pending going_on h.going)) h.fresh;
        going = inr (inr (inl ((λ n. cc), (λ n. cc), refl)));
      })

Fresh-fewer :
    (ws : Option ReadyState) (o : Option ℕ) (timer : ℕ) (timers : List ℕ)
    → Fresh ws o (timer ∷ timers)
    → Fresh ws o timers
Fresh-fewer (some opened) o timer timers f = tt
Fresh-fewer (some terminated) o timer timers f = tt
Fresh-fewer (some opening) o timer timers f = absurd (ground (arith, f.1))
Fresh-fewer (some closing) o timer timers f = absurd (ground (arith, f.1))
Fresh-fewer none o timer timers f = absurd (ground (arith, f.1))

fire_stable-WellFormed :
    (timers : List ℕ) (c : WsClient)
    → c.stables ≡ timers
    → WellFormed c
    → WellFormed (fire_stable timers c)
unfolding fire_stable
fire_stable-WellFormed [] c e h = h
fire_stable-WellFormed (timer ∷ timers) c e h = record {
  one_heartbeat = h.one_heartbeat;
  one_reconnect = h.one_reconnect;
  stable = inl (last_one h.stable);
  fresh =
      Fresh-fewer c.ws c.heartbeat_timer timer timers
        (subst (λ ids. Fresh c.ws c.heartbeat_timer ids) e h.fresh);
  going = h.going;
}
  where
    last_one : (c.stables ≡ []) ⊎ (c.stables ≡ to_list c.stable_timer) → timers ≡ []
    last_one (inl k) = absurd (ground (arith, e, k))
    last_one (inr k) = alone timers c.stable_timer (sym e ∙ k)

on_open-WellFormed :
    (ws : Option ReadyState) (now : ℕ) (c : WsClient)
    → c.ws ≡ ws
    → WellFormed c
    → WellFormed (on_open ws now c)
on_open-WellFormed (some opening) now c e h = handle_open-WellFormed now c e h
on_open-WellFormed (some opened) now c e h = h
on_open-WellFormed (some terminated) now c e h = h
on_open-WellFormed (some closing) now c e h = h
on_open-WellFormed none now c e h = h

-- The other sockets and the calls of `stop` have no part in this.
others-WellFormed :
    (c : WsClient) (others : List (ℕ × Bool)) (waits : List ℕ)
    → WellFormed c
    → WellFormed (record c { old_sockets = others; stop_waits = waits })
others-WellFormed c others waits h = record {
  one_heartbeat = h.one_heartbeat;
  one_reconnect = h.one_reconnect;
  stable = h.stable;
  fresh = h.fresh;
  going = h.going;
}

on_close-WellFormed :
    (ws : Option ReadyState) (now random code : ℕ) (c : WsClient)
    → WellFormed c
    → WellFormed (on_close ws now random code c)
on_close-WellFormed none now random code c h = h
on_close-WellFormed (some state) now random code c h =
    handle_close-WellFormed now random code _ (others-WellFormed c c.old_sockets _ h)

-- After `stop`, no socket may open any more, and before it, no other socket is there and nothing waits.
abbrev pub Settled : WsClient → Type 0
Settled c =
    ((c.stopping ≡ true) ⊎ ((c.old_sockets ≡ []) × (c.stop_waits ≡ [])))
    × All (λ other. other.1 ≡ false) c.old_sockets
    × ((c.stopping ≡ false) ⊎ ((c.ws ≡ none) ⊎ (c.ws ≡ some closing)))

pub none_opens :
    (id : ℕ) (others : List (ℕ × Bool))
    → All (λ other. other.1 ≡ false) others
    → may_still_open id others ≡ false
none_opens id [] a = refl
none_opens id (other ∷ others) a = ground (arith, a.0, none_opens id others a.1)

on_old_open-WellFormed :
    (id now : ℕ) (c : WsClient)
    → Settled c
    → WellFormed c
    → WellFormed (on_old_open (may_still_open id c.old_sockets) id now c)
on_old_open-WellFormed id now c s h =
    if_split (λ (d : WsClient). WellFormed d) (may_still_open id c.old_sockets)
      (λ opens. absurd (ground (arith, opens, none_opens id c.old_sockets s.1))) (λ _. h)

on_old_close-WellFormed :
    (is_old : Bool) (id now random code : ℕ) (c : WsClient)
    → WellFormed c
    → WellFormed (on_old_close is_old id now random code c)
on_old_close-WellFormed true id now random code c h =
    handle_close-WellFormed now random code _ (others-WellFormed c _ _ h)
on_old_close-WellFormed false id now random code c h = h

-- Where a call of `stop` waits, the client is stopping.
pub waits_stop :
    {id : ℕ} {waits : List ℕ} (c : WsClient)
    → c.stop_waits ≡ id ∷ waits
    → Settled c
    → c.stopping ≡ true
waits_stop c e (inl stopping, a, k) = stopping
waits_stop c e (inr (o, w), a, k) = absurd (ground (arith, e, w))

pub stopped_socket :
    (c : WsClient) → c.stopping ≡ true → Settled c → (c.ws ≡ none) ⊎ (c.ws ≡ some closing)
stopped_socket c e (s, a, inl going_on) = absurd (ground (arith, e, going_on))
stopped_socket c e (s, a, inr k) = k

stopped_parts :
    (ws : Option ReadyState) {o : Option ℕ} {ids : List ℕ}
    → (ws ≡ none) ⊎ (ws ≡ some closing)
    → Fresh ws o ids
    → (o ≡ none) × (ids ≡ [])
stopped_parts none e f = f
stopped_parts (some closing) e f = f
stopped_parts (some opening) e f = f
stopped_parts (some opened) e f = absurd (ground (arith, e))
stopped_parts (some terminated) e f = absurd (ground (arith, e))

on_timeout-WellFormed :
    (waits : List ℕ) (c : WsClient)
    → c.stop_waits ≡ waits
    → Settled c
    → WellFormed c
    → WellFormed (on_timeout waits c)
on_timeout-WellFormed [] c e s h = h
on_timeout-WellFormed (id ∷ waits) c e s h =
    let stopping = waits_stop c e s in
    record {
      one_heartbeat = h.one_heartbeat;
      one_reconnect = h.one_reconnect;
      stable = h.stable;
      fresh = stopped_parts c.ws (stopped_socket c stopping s) h.fresh;
      going = inl stopping;
    }

on_heartbeat-WellFormed :
    (timers : List ℕ) (now : ℕ) (c : WsClient)
    → WellFormed c
    → WellFormed (on_heartbeat timers now c)
on_heartbeat-WellFormed [] now c h = h
on_heartbeat-WellFormed (timer ∷ timers) now c h = check_heartbeat-WellFormed now c h

pub step-WellFormed :
    (event : WsEvent) (c : WsClient) → Settled c → WellFormed c → WellFormed (step event c)
unfolding step
step-WellFormed (starts streams) c s h = start-WellFormed streams c h
step-WellFormed stops c s h = stop-WellFormed c h
step-WellFormed stop_times_out c s h = on_timeout-WellFormed c.stop_waits c refl s h
step-WellFormed (opens now) c s h = on_open-WellFormed c.ws now c refl h
step-WellFormed (pings now) c s h = record {
  one_heartbeat = h.one_heartbeat;
  one_reconnect = h.one_reconnect;
  stable = h.stable;
  fresh = h.fresh;
  going = h.going;
}
step-WellFormed (fails now) c s h = record {
  one_heartbeat = h.one_heartbeat;
  one_reconnect = h.one_reconnect;
  stable = h.stable;
  fresh = h.fresh;
  going = h.going;
}
step-WellFormed (receives now message) c s h = record {
  one_heartbeat = h.one_heartbeat;
  one_reconnect = h.one_reconnect;
  stable = h.stable;
  fresh = h.fresh;
  going = h.going;
}
step-WellFormed (closes now random code) c s h = on_close-WellFormed c.ws now random code c h
step-WellFormed (old_opens id now) c s h = on_old_open-WellFormed id now c s h
step-WellFormed (old_closes id now random code) c s h =
    on_old_close-WellFormed (is_among id c.old_sockets) id now random code c h
step-WellFormed (heartbeat_fires now) c s h = on_heartbeat-WellFormed c.heartbeats now c h
step-WellFormed reconnect_fires c s h = fire_reconnect-WellFormed c.reconnects c refl h
step-WellFormed stable_fires c s h = fire_stable-WellFormed c.stables c refl h
