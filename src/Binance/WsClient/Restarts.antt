-- ===== src/Binance/WsClient/Restarts.antt =====
-- Histories of `BinanceWsClient` in which it is started again only once its sockets have closed.
use mathlib.Core.Path.{subst}
use Prim.Native.String.{String}
use ariai_exam.Prelude.{
  ℕ, ◌-◌, ◌≡◌, ◌≢◌, ◌⊎◌, ◌∙◌, refl, sym, ap, arith, inl, inr, Bool, true, false, not, ◌||◌, ◌==◌,
  List, [], ◌∷◌, Option, none, some, Result, ltb, if_split, when_none, when_none_split, All,
  All-append,
}
use ariai_exam.Binance.WsClient.{
  ReadyState, opening, opened, terminated, closing, WsClient, WsError, WsOptions, left_behind,
  connect, start, stop, start_heartbeat, handle_open, schedule_reconnect, handle_close,
  check_heartbeat, fire_reconnect, fire_stable,
}
use ariai_exam.Binance.WsClient.Events.{
  WsEvent, starts, stops, stop_times_out, opens, pings, fails, receives, closes, old_opens,
  old_closes, heartbeat_fires, reconnect_fires, stable_fires, or_unchanged, on_open, on_close,
  on_timeout, on_heartbeat, on_old_open, on_old_close, is_among, may_still_open, other_sockets,
  still_waiting, step, run, new_client,
}
use ariai_exam.Binance.WsClient.Handles.{to_list, Fresh, WellFormed, no_socket}
use ariai_exam.Binance.WsClient.Histories.{
  Settled, waits_stop, stopped_socket, none_opens, no_socket_yet, step-WellFormed,
}

-- Nothing is left of an earlier connection: no socket beside the one of `ws`, and no call of `stop` that waits.
abbrev pub NothingLeft : WsClient → Type 0
NothingLeft c = (c.old_sockets ≡ []) × (c.stop_waits ≡ [])

-- Each call of `start` in a history comes where nothing is left.
abbrev pub RestartsSettled : List WsEvent → WsClient → Type 0
RestartsSettled [] c = Unit {0}
RestartsSettled (starts streams ∷ history) c =
    NothingLeft c × RestartsSettled history (step (starts streams) c)
RestartsSettled (event ∷ history) c = RestartsSettled history (step event c)

abbrev Allowed : WsEvent → WsClient → Type 0
Allowed (starts streams) c = NothingLeft c
Allowed event c = Unit {0}

left_behind-All :
    (ws : Option ReadyState) (id : ℕ) (others : List (ℕ × Bool))
    → (ws ≡ none) ⊎ (ws ≡ some closing)
    → All (λ other. other.1 ≡ false) others
    → All (λ other. other.1 ≡ false) (left_behind ws id others)
left_behind-All none id others e a = a
left_behind-All (some closing) id others e a =
    All-append (λ other. other.1 ≡ false) others ((id, false) ∷ []) a (refl, tt)
left_behind-All (some opening) id others e a = absurd (ground (arith, e))
left_behind-All (some opened) id others e a = absurd (ground (arith, e))
left_behind-All (some terminated) id others e a = absurd (ground (arith, e))

other_sockets-All :
    (id : ℕ) (others : List (ℕ × Bool))
    → All (λ other. other.1 ≡ false) others
    → All (λ other. other.1 ≡ false) (other_sockets id others)
other_sockets-All id [] a = tt
other_sockets-All id (other ∷ others) a =
    if_split (All (λ other. other.1 ≡ false)) (not (other.0 == id))
      (λ _. (a.0, other_sockets-All id others a.1)) (λ _. other_sockets-All id others a.1)

-- A connection from where there is no socket.
new_socket-Settled :
    (c : WsClient)
    → c.ws ≡ none
    → NothingLeft c
    → (left_behind c.ws c.socket c.old_sockets ≡ [])
      × All (λ other. other.1 ≡ false) (left_behind c.ws c.socket c.old_sockets)
new_socket-Settled c e (o, w) =
    let nothing = ap (λ ws. left_behind ws c.socket c.old_sockets) e ∙ o in
    (nothing, subst (All (λ other. other.1 ≡ false)) (sym nothing) tt)

start-Settled :
    (streams : List String) (c : WsClient)
    → NothingLeft c
    → Settled c
    → Settled (or_unchanged c (start streams c))
unfolding start connect
start-Settled [] c n s =
    if_split (λ (d : Result WsError WsClient). Settled (or_unchanged c d))
      (not (when_none c.ws true false) || not (when_none c.reconnect_timer true false)) (λ _. s)
      (λ _. s)
start-Settled (stream ∷ streams) c n s =
    if_split (λ (d : Result WsError WsClient). Settled (or_unchanged c d))
      (not (when_none c.ws true false) || not (when_none c.reconnect_timer true false)) (λ _. s)
      (λ e.
        let (o, a) = new_socket-Settled c (no_socket c.ws c.reconnect_timer e) n in
        (inr (o, n.1), a, inl refl))

stop-Settled : (c : WsClient) → Settled c → Settled (stop c)
unfolding stop
stop-Settled c s = (
  inl refl,
  s.1,
  inr (
      when_none_split (λ (o : Option ReadyState). (o ≡ none) ⊎ (o ≡ some closing)) c.ws
        (λ _. inl refl) (λ _ _. inr refl)),
)

on_timeout-Settled :
    (waits : List ℕ) (c : WsClient)
    → c.stop_waits ≡ waits
    → Settled c
    → Settled (on_timeout waits c)
on_timeout-Settled [] c e s = s
on_timeout-Settled (id ∷ waits) c e s =
    let stopping = waits_stop c e s in
    (
      inl stopping,
      left_behind-All c.ws c.socket c.old_sockets (stopped_socket c stopping s) s.1,
      inr (inl refl),
    )

on_open-Settled :
    (ws : Option ReadyState) (now : ℕ) (c : WsClient)
    → c.ws ≡ ws
    → Settled c
    → Settled (on_open ws now c)
unfolding handle_open start_heartbeat
on_open-Settled (some opening) now c e (s, a, inl going_on) = (s, a, inl going_on)
on_open-Settled (some opening) now c e (s, a, inr (inl k)) = absurd (ground (arith, e, k))
on_open-Settled (some opening) now c e (s, a, inr (inr k)) = absurd (ground (arith, e, k))
on_open-Settled (some opened) now c e s = s
on_open-Settled (some terminated) now c e s = s
on_open-Settled (some closing) now c e s = s
on_open-Settled none now c e s = s

handle_close-Settled :
    (now random code : ℕ) (c : WsClient) → Settled c → Settled (handle_close now random code c)
unfolding handle_close schedule_reconnect
handle_close-Settled now random code c s =
    if_split (λ (d : WsClient). Settled d) c.stopping (λ _. (s.0, s.1, inr (inl refl)))
      (λ _.
        if_split (λ (d : WsClient). Settled d) c.stopping (λ _. (s.0, s.1, inr (inl refl)))
          (λ _.
            when_none_split (λ (d : WsClient). Settled d) c.reconnect_timer
              (λ _. (s.0, s.1, inr (inl refl))) (λ _ _. (s.0, s.1, inr (inl refl)))))

fewer_waits :
    (id : ℕ) (c : WsClient)
    → Settled c
    → Settled (record c { stop_waits = still_waiting id c.stop_waits })
fewer_waits id c (inl stopping, a, k) = (inl stopping, a, k)
fewer_waits id c (inr (o, w), a, k) = (inr (o, ap (still_waiting id) w), a, k)

on_close-Settled :
    (ws : Option ReadyState) (now random code : ℕ) (c : WsClient)
    → Settled c
    → Settled (on_close ws now random code c)
on_close-Settled none now random code c s = s
on_close-Settled (some state) now random code c s =
    handle_close-Settled now random code _ (fewer_waits c.socket c s)

on_old_open-Settled :
    (id now : ℕ) (c : WsClient)
    → Settled c
    → Settled (on_old_open (may_still_open id c.old_sockets) id now c)
on_old_open-Settled id now c s =
    if_split (λ (d : WsClient). Settled d) (may_still_open id c.old_sockets)
      (λ opens. absurd (ground (arith, opens, none_opens id c.old_sockets s.1))) (λ _. s)

-- There are other sockets only where the client is stopping.
others_stop :
    (id : ℕ) (c : WsClient) → is_among id c.old_sockets ≡ true → Settled c → c.stopping ≡ true
others_stop id c e (inl stopping, a, k) = stopping
others_stop id c e (inr (o, w), a, n) =
    absurd (let k : false ≡ true = sym (ap (is_among id) o) ∙ e in cc)

on_old_close-Settled :
    (id now random code : ℕ) (c : WsClient)
    → Settled c
    → Settled (on_old_close (is_among id c.old_sockets) id now random code c)
on_old_close-Settled id now random code c s =
    if_split (λ (d : WsClient). Settled d) (is_among id c.old_sockets)
      (λ e.
        let stopping = others_stop id c e s in
        handle_close-Settled now random code _ (
          inl stopping,
          left_behind-All c.ws c.socket (other_sockets id c.old_sockets)
              (stopped_socket c stopping s) (other_sockets-All id c.old_sockets s.1),
          s.2,
        ))
      (λ _. s)

-- The heartbeat of a client that is stopping has been cleared.
beats_on :
    {timer : ℕ} {timers : List ℕ} (c : WsClient)
    → c.heartbeats ≡ timer ∷ timers
    → WellFormed c
    → c.ws ≢ some closing
beats_on c e h k =
    let f = subst (λ ws. Fresh ws c.heartbeat_timer c.stables) k h.fresh in
    let empty : c.heartbeats ≡ [] = h.one_heartbeat ∙ ap to_list f.0 in ground (arith, e, empty)

on_heartbeat-Settled :
    (timers : List ℕ) (now : ℕ) (c : WsClient)
    → c.heartbeats ≡ timers
    → WellFormed c
    → Settled c
    → Settled (on_heartbeat timers now c)
unfolding check_heartbeat
on_heartbeat-Settled [] now c e h s = s
on_heartbeat-Settled (timer ∷ timers) now c e h s =
    when_none_split (λ (d : WsClient). Settled d) c.ws (λ _. s)
      (λ state k.
        if_split (λ (d : WsClient). Settled d)
          (ltb c.options.heartbeat_timeout_ms (now - c.last_activity_at))
          (λ _. (s.0, s.1, going_on state k s.2)) (λ _. s))
  where
    going_on :
        (state : ReadyState)
        → c.ws ≡ some state
        → (c.stopping ≡ false) ⊎ ((c.ws ≡ none) ⊎ (c.ws ≡ some closing))
        → (c.stopping ≡ false) ⊎ ((some terminated ≡ none) ⊎ (some terminated ≡ some closing))
    going_on state k (inl g) = inl g
    going_on state k (inr (inl g)) = absurd (ground (arith, k, g))
    going_on state k (inr (inr g)) = absurd (beats_on c e h g)

fire_reconnect-Settled :
    (timers : List ℕ) (c : WsClient)
    → c.reconnects ≡ timers
    → WellFormed c
    → Settled c
    → Settled (fire_reconnect timers c)
unfolding fire_reconnect connect
fire_reconnect-Settled [] c e h s = s
fire_reconnect-Settled (timer ∷ timers) c e h s =
    if_split (λ (d : WsClient). Settled d) c.stopping (λ _. s)
      (λ going_on.
        let free = no_socket_yet c (sym e ∙ h.one_reconnect) going_on h.going in
        let nothing = nothing_left going_on s.0 in
        let (o, a) = new_socket-Settled c free nothing in (inr (o, nothing.1), a, inl going_on))
  where
    nothing_left : c.stopping ≡ false → (c.stopping ≡ true) ⊎ NothingLeft c → NothingLeft c
    nothing_left going_on (inl stopping) = absurd (ground (arith, going_on, stopping))
    nothing_left going_on (inr n) = n

fire_stable-Settled : (timers : List ℕ) (c : WsClient) → Settled c → Settled (fire_stable timers c)
unfolding fire_stable
fire_stable-Settled [] c s = s
fire_stable-Settled (timer ∷ timers) c s = s

step-Settled :
    (event : WsEvent) (c : WsClient)
    → Allowed event c
    → WellFormed c
    → Settled c
    → Settled (step event c)
unfolding step
step-Settled (starts streams) c n h s = start-Settled streams c n s
step-Settled stops c n h s = stop-Settled c s
step-Settled stop_times_out c n h s = on_timeout-Settled c.stop_waits c refl s
step-Settled (opens now) c n h s = on_open-Settled c.ws now c refl s
step-Settled (pings now) c n h s = s
step-Settled (fails now) c n h s = s
step-Settled (receives now message) c n h s = s
step-Settled (closes now random code) c n h s = on_close-Settled c.ws now random code c s
step-Settled (old_opens id now) c n h s = on_old_open-Settled id now c s
step-Settled (old_closes id now random code) c n h s = on_old_close-Settled id now random code c s
step-Settled (heartbeat_fires now) c n h s = on_heartbeat-Settled c.heartbeats now c refl h s
step-Settled reconnect_fires c n h s = fire_reconnect-Settled c.reconnects c refl h s
step-Settled stable_fires c n h s = fire_stable-Settled c.stables c s

restarts_parts :
    (event : WsEvent) (history : List WsEvent) (c : WsClient)
    → RestartsSettled (event ∷ history) c
    → Allowed event c × RestartsSettled history (step event c)
restarts_parts (starts streams) history c r = r
restarts_parts stops history c r = (tt, r)
restarts_parts stop_times_out history c r = (tt, r)
restarts_parts (opens now) history c r = (tt, r)
restarts_parts (pings now) history c r = (tt, r)
restarts_parts (fails now) history c r = (tt, r)
restarts_parts (receives now message) history c r = (tt, r)
restarts_parts (closes now random code) history c r = (tt, r)
restarts_parts (old_opens id now) history c r = (tt, r)
restarts_parts (old_closes id now random code) history c r = (tt, r)
restarts_parts (heartbeat_fires now) history c r = (tt, r)
restarts_parts reconnect_fires history c r = (tt, r)
restarts_parts stable_fires history c r = (tt, r)

run-WellFormed :
    (history : List WsEvent) (c : WsClient)
    → RestartsSettled history c
    → Settled c
    → WellFormed c
    → WellFormed (run history c)
unfolding run
run-WellFormed [] c r s h = h
run-WellFormed (event ∷ history) c r s h =
    let (allowed, rest) = restarts_parts event history c r in
    run-WellFormed history (step event c) rest (step-Settled event c allowed h s)
      (step-WellFormed event c s h)

-- After any history of a client in which `start` is called only where each earlier socket has closed and no call of
-- `stop` waits: Node holds the heartbeat and the reconnection that the fields name and no others, no timer of a
-- connection outlives it, and a client that was started and is not stopping has a socket or a reconnection to come,
-- never both.
pub ws_client_is_tidy :
    (options : WsOptions) (history : List WsEvent)
    → RestartsSettled history (new_client options)
    → WellFormed (run history (new_client options))
ws_client_is_tidy options history r =
    run-WellFormed history (new_client options) r (inr (refl, refl), tt, inl refl)
      (record {
        one_heartbeat = refl;
        one_reconnect = refl;
        stable = inl refl;
        fresh = (refl, refl);
        going = inr (inl (refl, refl, refl));
      })
