-- ===== src/Binance/WsClient/Events.antt =====
-- What can happen to `BinanceWsClient`: its calls, the events of its socket and its timers.
use Prim.Native.String.{String}
use ariai_exam.Prelude.{
  ℕ, Bool, ◌&&◌, ◌||◌, not, ◌==◌, if◌then◌else◌, filter, List, [], ◌∷◌, Option, none, some, false,
  Result, ok, err,
}
use ariai_exam.Binance.WsClient.{
  ReadyState, opening, opened, left_behind, WsClient, WsError, WsOptions, start, stop, stop_done,
  handle_open, handle_message, handle_error, handle_close, check_heartbeat, fire_reconnect,
  fire_stable,
}

-- Node runs a callback that it holds. A socket opens at most once, and not once `close` or `terminate` has been called,
-- as the library that it comes from does, and closes once. The events of sockets that `ws` names no more are those of
-- `old_opens` and `old_closes`; a ping, a message or an error may be theirs too.
pub data WsEvent : Type 0 where
  starts : List String → WsEvent
  stops stop_times_out : WsEvent
  opens pings fails : ℕ → WsEvent
  receives : ℕ → String → WsEvent
  closes : ℕ → ℕ → ℕ → WsEvent
  old_opens : ℕ → ℕ → WsEvent
  old_closes : ℕ → ℕ → ℕ → ℕ → WsEvent
  heartbeat_fires : ℕ → WsEvent
  reconnect_fires stable_fires : WsEvent

-- A call that throws leaves the client as it was.
abbrev pub or_unchanged : WsClient → Result WsError WsClient → WsClient
or_unchanged c (ok c') = c'
or_unchanged c (err e) = c

-- The calls of `stop` that wait for another socket than the one that has closed, which let the others go on; `ws` is
-- null by then.
abbrev pub still_waiting : ℕ → List ℕ → List ℕ
still_waiting id waits = filter (λ other. not (other == id)) waits

abbrev pub other_sockets : ℕ → List (ℕ × Bool) → List (ℕ × Bool)
other_sockets id sockets = filter (λ other. not (other.0 == id)) sockets

abbrev pub is_among : ℕ → List (ℕ × Bool) → Bool
is_among id [] = false
is_among id (other ∷ others) = other.0 == id || is_among id others

abbrev pub may_still_open : ℕ → List (ℕ × Bool) → Bool
may_still_open id [] = false
may_still_open id (other ∷ others) = (other.0 == id && other.1) || may_still_open id others

abbrev pub on_open : Option ReadyState → ℕ → WsClient → WsClient
on_open (some opening) now c = handle_open now (record c { ws = some opened })
on_open _ now c = c

abbrev pub on_close : Option ReadyState → ℕ → ℕ → ℕ → WsClient → WsClient
on_close none now random code c = c
on_close (some state) now random code c =
    handle_close now random code (record c { stop_waits = still_waiting c.socket c.stop_waits })

-- The listeners of a socket that `ws` names no more run on the fields as they are.
abbrev pub on_old_open : Bool → ℕ → ℕ → WsClient → WsClient
on_old_open may_open id now c =
    if may_open
    then handle_open now (record c { old_sockets = (id, false) ∷ other_sockets id c.old_sockets })
    else c

abbrev pub on_old_close : Bool → ℕ → ℕ → ℕ → ℕ → WsClient → WsClient
on_old_close is_old id now random code c =
    if is_old
    then handle_close now random code (record c {
      old_sockets = left_behind c.ws c.socket (other_sockets id c.old_sockets);
      stop_waits = still_waiting id c.stop_waits;
    })
    else c

-- The timer of the oldest call of `stop` that waits.
abbrev pub on_timeout : List ℕ → WsClient → WsClient
on_timeout [] c = c
on_timeout (id ∷ waits) c = stop_done (record c { stop_waits = waits })

abbrev pub on_heartbeat : List ℕ → ℕ → WsClient → WsClient
on_heartbeat [] now c = c
on_heartbeat (timer ∷ timers) now c = check_heartbeat now c

unfoldable pub step : WsEvent → WsClient → WsClient
step (starts streams) c = or_unchanged c (start streams c)
step stops c = stop c
step stop_times_out c = on_timeout c.stop_waits c
step (opens now) c = on_open c.ws now c
step (pings now) c = record c { last_activity_at = now }
step (fails now) c = handle_error now c
step (receives now message) c = handle_message now message c
step (closes now random code) c = on_close c.ws now random code c
step (old_opens id now) c = on_old_open (may_still_open id c.old_sockets) id now c
step (old_closes id now random code) c =
    on_old_close (is_among id c.old_sockets) id now random code c
step (heartbeat_fires now) c = on_heartbeat c.heartbeats now c
step reconnect_fires c = fire_reconnect c.reconnects c
step stable_fires c = fire_stable c.stables c

unfoldable pub run : List WsEvent → WsClient → WsClient
run [] c = c
run (event ∷ history) c = run history (step event c)

-- A client as it is constructed.
abbrev pub new_client : WsOptions → WsClient
new_client options' = record {
  options = options';
  ws = none;
  socket = 0;
  old_sockets = [];
  stop_waits = [];
  started = false;
  streams = [];
  stopping = false;
  reconnect_attempts = 0;
  last_activity_at = 0;
  disconnected_at = none;
  heartbeat_timer = none;
  reconnect_timer = none;
  stable_timer = none;
  heartbeats = [];
  reconnects = [];
  stables = [];
  reconnect_delay = 0;
  next_id = 0;
  messages = [];
  statuses = [];
}
