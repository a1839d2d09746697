-- ===== src/Frontend/EventStream/Machine.antt =====
-- The events of the browser that reach `EventStreamClient`, and what each does.
use Prim.Native.String.{String}
use ariai_exam.Prelude.{
  ℕ, suc, ◌+◌, ◌-◌, ◌||◌, not, List, [], ◌∷◌, ◌++◌, Option, none, some, ltb, ◌==◌, if◌then◌else◌,
  length, drop, when_none, map_set, map_values,
}
use ariai_exam.Frontend.EventStream.{
  EventStreamClient, live, same_status, flush_interval_ms, max_tick_buffer, max_candle_buffer,
  RetryTimer, Answers, CandleEvent, CandleKey, candle_key_eq, on_ticks, on_candles, on_metrics,
  on_ops,
}
use ariai_exam.Frontend.EventStream.Methods.{
  Schemas, patch, deliver, arm_watchdog, connect, start, stop, handle_online, handle_open,
  handle_error, subscribe, unsubscribe, subscribe_status, unsubscribe_status,
}

-- The first key of a `Map` is deleted while there are too many.
unfoldable pub evict {ℓ} : {B : Type ℓ} → List (CandleKey × B) → List (CandleKey × B)
evict [] = []
evict (oldest ∷ others) =
    let rest = evict others in
    if ltb max_candle_buffer (length (oldest ∷ others)) then rest else oldest ∷ others

module _ {T B M O : Type 0} where
  abbrev pub report_invalid : String → EventStreamClient T B M O → EventStreamClient T B M O
  report_invalid message c =
      patch
        (record c.snapshot {
          last_error = some message;
          invalid_count = c.snapshot.invalid_count + 1;
        })
        c

  unfoldable pub mark_alive : Answers → EventStreamClient T B M O → EventStreamClient T B M O
  mark_alive answers c =
      let armed = arm_watchdog (record c { last_event_at_ms = some answers.now_ms }) in
      if not (same_status armed.snapshot.status live) || not (armed.snapshot.attempt == 0)
      then patch (record armed.snapshot { status = live; attempt = 0 }) armed
      else armed

  abbrev pub request_frame : EventStreamClient T B M O → EventStreamClient T B M O
  request_frame c = record c {
    raf_id = some c.browser.next_id;
    browser = record c.browser {
      frames = c.browser.frames ++ (c.browser.next_id ∷ []);
      next_id = suc c.browser.next_id;
    };
  }

  -- `requestAnimationFrame`, unless a frame is asked for already.
  unfoldable pub schedule_flush : EventStreamClient T B M O → EventStreamClient T B M O
  schedule_flush c = when_none c.raf_id (request_frame c) c

  abbrev pub push_tick : T → EventStreamClient T B M O → EventStreamClient T B M O
  push_tick tick c =
      let pushed = c.tick_buffer ++ (tick ∷ []) in
      record c {
        tick_buffer =
            if ltb max_tick_buffer (length pushed)
            then drop (length pushed - max_tick_buffer) pushed
            else pushed;
      }

  abbrev pub push_candle : CandleEvent B → EventStreamClient T B M O → EventStreamClient T B M O
  push_candle event c =
      let key : CandleKey = record {
        key_symbol = event.symbol;
        key_interval = event.interval;
        key_open_time = event.open_time;
      } in
      record c { candle_buffer = evict (map_set key event c.candle_buffer) }

  -- The second half of a handler, with what the schema has made of the event.
  abbrev pub accept {ℓ} :
      {A : Type ℓ}
      → String
      → (A → EventStreamClient T B M O → EventStreamClient T B M O)
      → Answers
      → Option A
      → EventStreamClient T B M O
      → EventStreamClient T B M O
  accept refused act answers none c = report_invalid refused c
  accept refused act answers (some event) c = act event (mark_alive answers c)

  abbrev pub decode {ℓ} :
      {J A : Type ℓ}
      → (J → Option A)
      → String
      → (A → EventStreamClient T B M O → EventStreamClient T B M O)
      → Answers
      → Option J
      → EventStreamClient T B M O
      → EventStreamClient T B M O
  decode schema refused act answers none c = report_invalid "SSE 페이로드를 JSON 으로 해석할 수 없습니다" c
  decode schema refused act answers (some value) c = accept refused act answers (schema value) c

  -- The text of the event is `none` where its payload is not a string.
  abbrev pub parse {ℓ} :
      {J A : Type ℓ}
      → (String → Option J)
      → (J → Option A)
      → String
      → (A → EventStreamClient T B M O → EventStreamClient T B M O)
      → Answers
      → Option String
      → EventStreamClient T B M O
      → EventStreamClient T B M O
  parse json_parse schema refused act answers none c = report_invalid "SSE 페이로드가 문자열이 아닙니다" c
  parse json_parse schema refused act answers (some text) c =
      decode schema refused act answers (json_parse text) c

  abbrev pub handle_event {ℓ} :
      {J A : Type ℓ}
      → (String → Option J)
      → (J → Option A)
      → String
      → (A → EventStreamClient T B M O → EventStreamClient T B M O)
      → Answers
      → Option String
      → EventStreamClient T B M O
      → EventStreamClient T B M O
  handle_event json_parse schema refused act answers text c =
      if c.stopped then c else parse json_parse schema refused act answers text c

  abbrev pub hand_over_ticks : List T → EventStreamClient T B M O → EventStreamClient T B M O
  hand_over_ticks [] c = c
  hand_over_ticks (tick ∷ ticks) c =
      deliver (on_ticks (tick ∷ ticks)) (record c { tick_buffer = [] })

  abbrev pub hand_over_candles :
      List (CandleKey × CandleEvent B) → EventStreamClient T B M O → EventStreamClient T B M O
  hand_over_candles [] c = c
  hand_over_candles (entry ∷ entries) c =
      deliver (on_candles (map_values (entry ∷ entries))) (record c { candle_buffer = [] })

  abbrev pub flush : EventStreamClient T B M O → EventStreamClient T B M O
  flush c = let c' = hand_over_ticks c.tick_buffer c in hand_over_candles c'.candle_buffer c'

  -- The callback of `requestAnimationFrame`.
  unfoldable pub on_frame : Answers → EventStreamClient T B M O → EventStreamClient T B M O
  on_frame answers c =
      let taken = record c { raf_id = none } in
      if ltb (answers.frame_ms - c.last_flush_at) flush_interval_ms
      then schedule_flush taken
      else flush (record taken { last_flush_at = answers.frame_ms })

-- What can happen next. A callback that the browser holds may run, the oldest of its kind first; a listener of
-- a connection may be called at any time, late ones of a closed connection included.
pub data Event : Type 0 where
  starts stops goes_online opens fails pings retry_fires watchdog_fires frame_fires : Event
  tick_arrives candle_arrives metrics_arrives ops_arrives : Option String → Event
  subscribes unsubscribes subscribes_status unsubscribes_status : ℕ → Event

module _ {J T B M O : Type 0} (schemas : Schemas J T B M O) (answers : Answers) where
  unfoldable pub handle_tick : Option String → EventStreamClient T B M O → EventStreamClient T B M O
  handle_tick =
      handle_event schemas.json_parse schemas.tick_schema "tick 이벤트가 계약과 다릅니다"
        (λ tick c. schedule_flush (push_tick tick c)) answers

  unfoldable pub handle_candle :
      Option String → EventStreamClient T B M O → EventStreamClient T B M O
  handle_candle =
      handle_event schemas.json_parse schemas.candle_schema "candle 이벤트가 계약과 다릅니다"
        (λ candle c. schedule_flush (push_candle candle c)) answers

  unfoldable pub handle_metrics :
      Option String → EventStreamClient T B M O → EventStreamClient T B M O
  handle_metrics =
      handle_event schemas.json_parse schemas.metrics_schema "metrics 이벤트가 계약과 다릅니다"
        (λ event. deliver (on_metrics event)) answers

  unfoldable pub handle_ops : Option String → EventStreamClient T B M O → EventStreamClient T B M O
  handle_ops =
      handle_event schemas.json_parse schemas.ops_schema "ops 이벤트가 계약과 다릅니다"
        (λ event. deliver (on_ops event)) answers

  -- The browser runs a callback of `scheduleRetry`, which it then no longer holds.
  unfoldable pub fire_retry :
      List RetryTimer → EventStreamClient T B M O → EventStreamClient T B M O
  fire_retry [] c = c
  fire_retry (timer ∷ timers) c =
      connect answers timer.next_attempt
        (record c { retry_timer = none; browser = record c.browser { retries = timers } })

  unfoldable pub fire_watchdog : List ℕ → EventStreamClient T B M O → EventStreamClient T B M O
  fire_watchdog [] c = c
  fire_watchdog (timer ∷ timers) c =
      handle_error answers "스트림 응답이 없어 재연결합니다"
        (record c { watchdog_timer = none; browser = record c.browser { watchdogs = timers } })

  unfoldable pub fire_frame : List ℕ → EventStreamClient T B M O → EventStreamClient T B M O
  fire_frame [] c = c
  fire_frame (frame ∷ frames) c =
      on_frame answers (record c { browser = record c.browser { frames = frames } })

  unfoldable pub step : Event → EventStreamClient T B M O → EventStreamClient T B M O
  step starts c = start answers c
  step stops c = stop c
  step goes_online c = handle_online answers c
  step opens c = handle_open c
  step fails c = handle_error answers "스트림 연결이 끊어졌습니다" c
  step pings c = if c.stopped then c else mark_alive answers c
  step retry_fires c = fire_retry c.browser.retries c
  step watchdog_fires c = fire_watchdog c.browser.watchdogs c
  step frame_fires c = fire_frame c.browser.frames c
  step (tick_arrives payload) c = handle_tick payload c
  step (candle_arrives payload) c = handle_candle payload c
  step (metrics_arrives payload) c = handle_metrics payload c
  step (ops_arrives payload) c = handle_ops payload c
  step (subscribes handler) c = subscribe handler c
  step (unsubscribes handler) c = unsubscribe handler c
  step (subscribes_status listener) c = subscribe_status listener c
  step (unsubscribes_status listener) c = unsubscribe_status listener c

module _ {J T B M O : Type 0} (schemas : Schemas J T B M O) where
  -- A history of events from a client as it is constructed.
  unfoldable pub run :
      List (Answers × Event) → EventStreamClient T B M O → EventStreamClient T B M O
  run [] c = c
  run ((answers, event) ∷ history) c = run history (step schemas answers event c)
