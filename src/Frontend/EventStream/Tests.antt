-- ===== src/Frontend/EventStream/Tests.antt =====
-- Runs of event-stream-client.ts, and its theorems at a history of a lost connection.
use Prim.Native.String.{String}
use ariai_exam.Prelude.{ℕ, ◌≡◌, refl, List, [], ◌∷◌, none, some}
use ariai_exam.Frontend.EventStream.{Answers, backoff_delay}
use ariai_exam.Frontend.EventStream.Methods.{
  Schemas, new_client, connect, schedule_retry, arm_watchdog, open_source, start, handle_open,
  handle_error,
}
use ariai_exam.Frontend.EventStream.Machine.{
  Event, starts, opens, fails, tick_arrives, frame_fires, run, step, handle_tick, mark_alive,
  schedule_flush, on_frame, fire_frame,
}
use ariai_exam.Frontend.EventStream.Handles.{WellFormed}
use ariai_exam.Frontend.EventStream.Histories.{event_stream_is_tidy}
use ariai_exam.Frontend.EventStream.Liveness.{ComesBack, event_stream_recovers}

abbrev text_schemas : Schemas String String ℕ ℕ ℕ
text_schemas = record {
  json_parse = some;
  tick_schema = some;
  candle_schema = λ _. none;
  metrics_schema = λ _. none;
  ops_schema = λ _. some 1;
}

abbrev at_ms : ℕ → Answers
at_ms t = record { now_ms = t; frame_ms = t; random = 500_000; create_error = none }

abbrev lost : List (Answers × Event)
lost =
    (at_ms 1, starts)
    ∷ (at_ms 2, opens)
    ∷ (at_ms 3, tick_arrives (some "t"))
    ∷ (at_ms 300, frame_fires)
    ∷ (at_ms 400, fails)
    ∷ []

lost_runs :
    let c = run text_schemas lost new_client in
    (c.retry_timer ≡ some 4) × (c.source ≡ none) × (c.tick_buffer ≡ [])
unfolding run step handle_open start connect schedule_retry arm_watchdog open_source handle_tick
    mark_alive schedule_flush fire_frame on_frame handle_error
lost_runs = (refl, refl, refl)

delay_runs : backoff_delay 500_000 9 ≡ 15_000
unfolding backoff_delay
delay_runs = refl

event_stream_is_tidy_example :
    WellFormed (run text_schemas lost (new_client {T = String} {B = ℕ} {M = ℕ} {O = ℕ}))
event_stream_is_tidy_example = event_stream_is_tidy text_schemas lost

event_stream_recovers_example :
    ComesBack (run text_schemas lost (new_client {T = String} {B = ℕ} {M = ℕ} {O = ℕ}))
event_stream_recovers_example = event_stream_recovers text_schemas lost
