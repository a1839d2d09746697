-- ===== src/Binance/WsClient.antt =====
-- backend/src/binance/binance-ws.client.ts: the combined stream of the exchange, with its reconnection. The
-- socket library and the timers of Node are the environment; what `computeBackoffMs` draws is a parameter.
pub mod Events
pub mod Handles
pub mod Histories
pub mod Restarts
mod Tests
use Prim.Native.String.{String}
use ariai_exam.Prelude.{
  ℕ, zero, suc, ◌+◌, ◌-◌, ◌*◌, ◌/◌, ◌^◌, Bool, ◌||◌, not, true, false, List, [], ◌∷◌, ◌++◌, Option,
  none, some, Result, ok, err, ltb, leb, ◌==◌, if◌then◌else◌, when_none, min, max, filter,
}

-- backend/src/binance/backoff.ts. The ratio is in thousandths, and the draw of `random()` in millionths.
pub record BackoffPolicy : Type 0 where
  pub base_ms : ℕ
  pub max_ms : ℕ
  pub jitter_ratio : ℕ

abbrev pub default_backoff_policy : BackoffPolicy
default_backoff_policy = record { base_ms = 1_000; max_ms = 30_000; jitter_ratio = 300 }

abbrev pub ws_scale : ℕ
ws_scale = 1_000_000_000

-- `Math.round` of `raw - jitterSpan + random() * 2 * jitterSpan`, both sides times 10 ^ 9.
unfoldable pub compute_backoff_ms : ℕ → BackoffPolicy → ℕ → ℕ
compute_backoff_ms attempt policy random =
    let raw = min (policy.base_ms * 2 ^ (max 1 attempt - 1)) policy.max_ms in
    let span = raw * policy.jitter_ratio in
    let jittered = raw * ws_scale + random * (2 * span) - span * 1_000_000 in
    min ((jittered + 500_000_000) / ws_scale) policy.max_ms

-- How far a connection has come.
pub data ReadyState : Type 0 where
  opening opened terminated closing : ReadyState

pub data WsStatusEvent : Type 0 where
  ws_open : ℕ → WsStatusEvent
  reconnect : ℕ → ℕ → ℕ → ℕ → WsStatusEvent
  ws_error : ℕ → Bool → WsStatusEvent
  ws_close : ℕ → ℕ → ℕ → WsStatusEvent

pub data WsError : Type 0 where
  already_started no_streams : WsError

pub record WsOptions : Type 0 where
  pub heartbeat_timeout_ms : ℕ
  pub stable_reset_ms : ℕ
  pub backoff : BackoffPolicy

-- The fields of `BinanceWsClient`, the timers that Node holds, the delay of the last one to reconnect, and what
-- its handlers were called with. Of the sockets, `socket` is the number of the one that `ws` names; `old_sockets` are
-- those that have not closed and that `ws` names no more, each with whether it may still open; and `stop_waits` has, for
-- each call of `stop` that waits, the socket that it waits for.
pub record WsClient : Type 0 where
  pub options : WsOptions
  pub ws : Option ReadyState
  pub socket : ℕ
  pub old_sockets : List (ℕ × Bool)
  pub stop_waits : List ℕ
  pub started : Bool
  pub streams : List String
  pub stopping : Bool
  pub reconnect_attempts : ℕ
  pub last_activity_at : ℕ
  pub disconnected_at : Option ℕ
  pub heartbeat_timer : Option ℕ
  pub reconnect_timer : Option ℕ
  pub stable_timer : Option ℕ
  pub heartbeats : List ℕ
  pub reconnects : List ℕ
  pub stables : List ℕ
  pub reconnect_delay : ℕ
  pub next_id : ℕ
  pub messages : List String
  pub statuses : List WsStatusEvent

-- `clearTimeout` and `clearInterval`
abbrev pub clear_timer : Option ℕ → List ℕ → List ℕ
clear_timer none ids = ids
clear_timer (some id) ids = filter (λ other. not (other == id)) ids

abbrev pub is_connected : WsClient → Bool
is_connected c = elim c.ws [ some opened ↦ true | _ ↦ false ]

-- `handlers` is null before `start`.
abbrev pub emit_status : WsStatusEvent → WsClient → WsClient
emit_status event c = record c {
  statuses = if c.started then c.statuses ++ (event ∷ []) else c.statuses;
}

abbrev pub clear_heartbeat : WsClient → WsClient
clear_heartbeat c = record c {
  heartbeat_timer = none;
  heartbeats = clear_timer c.heartbeat_timer c.heartbeats;
}

abbrev pub clear_connection_timers : WsClient → WsClient
clear_connection_timers c =
    let c' = clear_heartbeat c in
    record c' { stable_timer = none; stables = clear_timer c'.stable_timer c'.stables }

abbrev pub clear_reconnect_timer : WsClient → WsClient
clear_reconnect_timer c = record c {
  reconnect_timer = none;
  reconnects = clear_timer c.reconnect_timer c.reconnects;
}

-- What becomes of the socket that `ws` names, where `ws` is assigned.
abbrev pub left_behind : Option ReadyState → ℕ → List (ℕ × Bool) → List (ℕ × Bool)
left_behind none id others = others
left_behind (some opening) id others = others ++ ((id, true) ∷ [])
left_behind (some opened) id others = others ++ ((id, false) ∷ [])
left_behind (some terminated) id others = others ++ ((id, false) ∷ [])
left_behind (some closing) id others = others ++ ((id, false) ∷ [])

abbrev pub leave_socket : WsClient → WsClient
leave_socket c = record c { old_sockets = left_behind c.ws c.socket c.old_sockets }

-- `new WebSocket(…)` with its listeners.
unfoldable pub connect : WsClient → WsClient
connect c =
    if c.stopping
    then c
    else record (leave_socket c) { ws = some opening; socket = c.next_id; next_id = suc c.next_id }

abbrev pub begin : List String → WsClient → WsClient
begin streams' c = connect (record c { stopping = false; streams = streams'; started = true })

unfoldable pub start : List String → WsClient → Result WsError WsClient
start [] c =
    if not (when_none c.ws true false) || not (when_none c.reconnect_timer true false)
    then err already_started
    else err no_streams
start (stream ∷ streams') c =
    if not (when_none c.ws true false) || not (when_none c.reconnect_timer true false)
    then err already_started
    else ok (begin (stream ∷ streams') c)

-- `stop` up to its wait for the socket to close.
unfoldable pub stop : WsClient → WsClient
stop c =
    let c' = clear_connection_timers (clear_reconnect_timer (record c { stopping = true })) in
    record c' {
      ws = when_none c'.ws none (some closing);
      stop_waits = when_none c'.ws c'.stop_waits (c'.stop_waits ++ (c'.socket ∷ []));
    }

-- The rest of `stop`, where three seconds have passed and the socket that it waits for has not closed: that one is
-- terminated, and `ws` is null, whatever it named.
abbrev pub stop_done : WsClient → WsClient
stop_done c = record (leave_socket c) { ws = none }

unfoldable pub start_heartbeat : WsClient → WsClient
start_heartbeat c =
    let c' = clear_heartbeat c in
    record c' {
      heartbeat_timer = some c'.next_id;
      heartbeats = c'.heartbeats ++ (c'.next_id ∷ []);
      next_id = suc c'.next_id;
    }

abbrev pub set_stable : WsClient → WsClient
set_stable c = record c {
  stable_timer = some c.next_id;
  stables = c.stables ++ (c.next_id ∷ []);
  next_id = suc c.next_id;
}

-- What `handleOpen` reports: the first connection, or the interruption that it ends.
abbrev pub announcement : Option ℕ → ℕ → ℕ → WsStatusEvent
announcement none now attempts = ws_open now
announcement (some since) now attempts = reconnect now since (now - since) attempts

-- `handleOpen` at the time `now`.
unfoldable pub handle_open : ℕ → WsClient → WsClient
handle_open now c =
    let c' = set_stable (start_heartbeat (record c { last_activity_at = now })) in
    record (emit_status (announcement c.disconnected_at now c.reconnect_attempts) c') {
      disconnected_at = none;
    }

abbrev pub handle_message : ℕ → String → WsClient → WsClient
handle_message now message c = record c {
  last_activity_at = now;
  messages = if c.started then c.messages ++ (message ∷ []) else c.messages;
}

abbrev pub handle_error : ℕ → WsClient → WsClient
handle_error now c = emit_status (ws_error now (is_connected c)) c

abbrev pub set_reconnect : ℕ → WsClient → WsClient
set_reconnect random c = record c {
  reconnect_delay =
      if c.reconnect_attempts == 0
      then 0
      else compute_backoff_ms c.reconnect_attempts c.options.backoff random;
  reconnect_attempts = c.reconnect_attempts + 1;
  reconnect_timer = some c.next_id;
  reconnects = c.reconnects ++ (c.next_id ∷ []);
  next_id = suc c.next_id;
}

unfoldable pub schedule_reconnect : ℕ → WsClient → WsClient
schedule_reconnect random c =
    if c.stopping then c else when_none c.reconnect_timer (set_reconnect random c) c

-- When the interruption began.
abbrev pub interrupted_at : Option ℕ → ℕ → ℕ
interrupted_at none now = now
interrupted_at (some since) now = since

unfoldable pub handle_close : ℕ → ℕ → ℕ → WsClient → WsClient
handle_close now random code c =
    let c' = record (clear_connection_timers c) { ws = none } in
    let since = interrupted_at c'.disconnected_at now in
    let c'' = emit_status (ws_close now code since) (record c' { disconnected_at = some since }) in
    if c.stopping then c' else schedule_reconnect random c''

-- A socket that has been silent too long is terminated; its `close` follows.
unfoldable pub check_heartbeat : ℕ → WsClient → WsClient
check_heartbeat now c = when_none c.ws c (
    if ltb c.options.heartbeat_timeout_ms (now - c.last_activity_at)
    then record c { ws = some terminated }
    else c)

-- The callback of `reconnectTimer`, which Node then no longer holds.
unfoldable pub fire_reconnect : List ℕ → WsClient → WsClient
fire_reconnect [] c = c
fire_reconnect (timer ∷ timers) c =
    connect (record c { reconnect_timer = none; reconnects = timers })

-- The callback of `stableTimer`: its field keeps the handle of a timer that has run.
unfoldable pub fire_stable : List ℕ → WsClient → WsClient
fire_stable [] c = c
fire_stable (timer ∷ timers) c = record c { reconnect_attempts = 0; stables = timers }
