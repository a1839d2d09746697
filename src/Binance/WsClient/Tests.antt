-- ===== src/Binance/WsClient/Tests.antt =====
-- Runs of binance-ws.client.ts, and its theorem at a connection that is lost twice.
use ariai_exam.Prelude.{◌≡◌, refl, List, [], ◌∷◌, none, some, false}
use ariai_exam.Binance.WsClient.{
  WsOptions, default_backoff_policy, compute_backoff_ms, connect, start, stop, handle_open,
  handle_close, schedule_reconnect, start_heartbeat, fire_reconnect, ws_open, ws_close, reconnect,
}
use ariai_exam.Binance.WsClient.Events.{
  WsEvent, starts, stops, stop_times_out, opens, closes, old_closes, reconnect_fires, step, run,
  new_client,
}
use ariai_exam.Binance.WsClient.Handles.{WellFormed}
use ariai_exam.Binance.WsClient.Restarts.{RestartsSettled, ws_client_is_tidy}

abbrev usual : WsOptions
usual = record {
  heartbeat_timeout_ms = 240_000;
  stable_reset_ms = 60_000;
  backoff = default_backoff_policy;
}

abbrev lost_twice : List WsEvent
lost_twice =
    starts ("btcusdt@trade" ∷ [])
    ∷ opens 10
    ∷ closes 50 500_000 1_006
    ∷ reconnect_fires
    ∷ opens 60
    ∷ closes 70 500_000 1_006
    ∷ []

-- The first reconnection is immediate, the second waits a second.
lost_twice_runs :
    let c = run lost_twice (new_client usual) in
    (c.ws ≡ none)
    × (c.reconnect_delay ≡ 1_000)
    × (c.statuses
        ≡ ws_open 10 ∷ ws_close 50 1_006 50 ∷ reconnect 60 50 10 1 ∷ ws_close 70 1_006 70 ∷ [])
unfolding run step start connect handle_open handle_close schedule_reconnect start_heartbeat
    fire_reconnect compute_backoff_ms
lost_twice_runs = (refl, refl, refl)

backoff_runs : compute_backoff_ms 3 default_backoff_policy 0 ≡ 2_800
unfolding compute_backoff_ms
backoff_runs = refl

-- The client is stopped, its socket closes in time, and it is started again.
abbrev restarted : List WsEvent
restarted =
    starts ("btcusdt@trade" ∷ [])
    ∷ opens 10
    ∷ stops
    ∷ closes 20 500_000 1_000
    ∷ starts ("btcusdt@trade" ∷ [])
    ∷ opens 30
    ∷ []

restarted-RestartsSettled : RestartsSettled restarted (new_client usual)
unfolding step start stop connect handle_open handle_close start_heartbeat
restarted-RestartsSettled = ((refl, refl), ((refl, refl), tt))

-- The socket does not close in time, and its `close` comes after the client has been started again: the client loses
-- the new socket, which lives on, and schedules a reconnection beside it.
abbrev closed_late : List WsEvent
closed_late =
    starts ("btcusdt@trade" ∷ [])
    ∷ opens 10
    ∷ stops
    ∷ stop_times_out
    ∷ starts ("btcusdt@trade" ∷ [])
    ∷ opens 30
    ∷ old_closes 0 40 500_000 1_006
    ∷ []

closed_late_runs :
    let c = run closed_late (new_client usual) in
    (c.ws ≡ none) × (c.reconnect_timer ≡ some 6) × (c.old_sockets ≡ (3, false) ∷ [])
unfolding run step start stop connect handle_open handle_close schedule_reconnect start_heartbeat
closed_late_runs = (refl, refl, refl)

ws_client_is_tidy_example : WellFormed (run restarted (new_client usual))
ws_client_is_tidy_example = ws_client_is_tidy usual restarted restarted-RestartsSettled
