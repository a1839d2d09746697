-- ===== src/Frontend/EventStream/Histories.antt =====
-- What holds of `EventStreamClient` after any history of events.
use Prim.Native.String.{String}
use ariai_exam.Prelude.{
  ℕ, ◌-◌, ◌≤◌, ◌||◌, length, length-drop, ltb, ◌==◌, ◌≡◌, refl, sym, arith, ap, ◌∙◌, not, List, [],
  ◌∷◌, ◌++◌, Option, none, some, when_none_split, if_split, map_set,
}
use ariai_exam.Frontend.EventStream.{
  EventStreamClient, live, same_status, max_tick_buffer, max_candle_buffer, RetryTimer, Answers,
  CandleEvent, CandleKey, candle_key_eq, Delivery, on_metrics, on_ops, flush_interval_ms,
}
use ariai_exam.Frontend.EventStream.Methods.{Schemas, new_client, deliver, arm_watchdog}
use ariai_exam.Frontend.EventStream.Machine.{
  report_invalid, mark_alive, schedule_flush, push_tick, evict, push_candle, accept, decode, parse,
  handle_event, hand_over_ticks, hand_over_candles, flush, on_frame, handle_tick, handle_candle,
  handle_metrics, handle_ops, fire_retry, fire_watchdog, fire_frame, step, run, Event, starts,
  stops, goes_online, opens, fails, pings, retry_fires, watchdog_fires, frame_fires, tick_arrives,
  candle_arrives, metrics_arrives, ops_arrives, subscribes, unsubscribes, subscribes_status,
  unsubscribes_status,
}
use ariai_exam.Frontend.EventStream.Handles.{
  to_list, retry_ids, WellFormed, patch-WellFormed, arm_watchdog-WellFormed, start-WellFormed,
  stop-WellFormed, connect-WellFormed, handle_online-WellFormed, handle_open-WellFormed,
  handle_error-WellFormed,
}

length-evict {ℓ} :
    {B : Type ℓ} (entries : List (CandleKey × B)) → length (evict entries) ≤ max_candle_buffer
unfolding evict
length-evict [] = omega arith
length-evict {B} (entry ∷ entries) =
    if_split (λ (kept : List (CandleKey × B)). length kept ≤ max_candle_buffer)
      (ltb max_candle_buffer (length (entry ∷ entries))) (λ _. length-evict entries)
      (λ few. ground (arith, few))

-- Once the only callback has run, none is pending.
alone : {id : ℕ} (ids : List ℕ) (field : Option ℕ) → id ∷ ids ≡ to_list field → ids ≡ []
alone ids none h = absurd (ground (arith, h))
alone [] (some id) h = refl
alone (next ∷ ids) (some id) h = absurd (ground (arith, h))

alone_retry :
    (timer : RetryTimer) (timers : List RetryTimer) (field : Option ℕ)
    → retry_ids (timer ∷ timers) ≡ to_list field
    → retry_ids timers ≡ []
alone_retry timer timers none h = absurd (ground (arith, h))
alone_retry timer [] (some id) h = refl
alone_retry timer (next ∷ timers) (some id) h = absurd (ground (arith, h))

module _ {T B M O : Type 0} where
  report_invalid-WellFormed :
      (message : String) (c : EventStreamClient T B M O)
      → WellFormed c
      → WellFormed (report_invalid message c)
  report_invalid-WellFormed message c h = record {
    one_source = h.one_source;
    one_retry = h.one_retry;
    one_watchdog = h.one_watchdog;
    one_frame = h.one_frame;
    few_ticks = h.few_ticks;
    few_candles = h.few_candles;
  }

  mark_alive-WellFormed :
      (answers : Answers) (c : EventStreamClient T B M O)
      → WellFormed c
      → WellFormed (mark_alive answers c)
  unfolding mark_alive
  mark_alive-WellFormed answers c h =
      let seen : EventStreamClient T B M O = record c { last_event_at_ms = some answers.now_ms } in
      let armed = arm_watchdog seen in
      let h' = arm_watchdog-WellFormed seen (record {
        one_source = h.one_source;
        one_retry = h.one_retry;
        one_watchdog = h.one_watchdog;
        one_frame = h.one_frame;
        few_ticks = h.few_ticks;
        few_candles = h.few_candles;
      }) in
      if_split (λ (d : EventStreamClient T B M O). WellFormed d)
        (not (same_status armed.snapshot.status live) || not (armed.snapshot.attempt == 0))
        (λ _. patch-WellFormed (record armed.snapshot { status = live; attempt = 0 }) armed h')
        (λ _. h')

  schedule_flush-WellFormed :
      (c : EventStreamClient T B M O) → WellFormed c → WellFormed (schedule_flush c)
  unfolding schedule_flush
  schedule_flush-WellFormed c h =
      when_none_split (λ (d : EventStreamClient T B M O). WellFormed d) c.raf_id
        (λ e. record {
          one_source = h.one_source;
          one_retry = h.one_retry;
          one_watchdog = h.one_watchdog;
          one_frame = ap (λ ids. ids ++ (c.browser.next_id ∷ [])) (h.one_frame ∙ ap to_list e);
          few_ticks = h.few_ticks;
          few_candles = h.few_candles;
        })
        (λ _ _. h)

  push_tick-WellFormed :
      (tick : T) (c : EventStreamClient T B M O) → WellFormed c → WellFormed (push_tick tick c)
  push_tick-WellFormed tick c h =
      let pushed = c.tick_buffer ++ (tick ∷ []) in
      record {
        one_source = h.one_source;
        one_retry = h.one_retry;
        one_watchdog = h.one_watchdog;
        one_frame = h.one_frame;
        few_ticks =
            if_split (λ (ticks : List T). length ticks ≤ max_tick_buffer)
              (ltb max_tick_buffer (length pushed))
              (λ _. omega (arith, length-drop (length pushed - max_tick_buffer) pushed))
              (λ few. ground (arith, few));
        few_candles = h.few_candles;
      }

  push_candle-WellFormed :
      (event : CandleEvent B) (c : EventStreamClient T B M O)
      → WellFormed c
      → WellFormed (push_candle event c)
  push_candle-WellFormed event c h = record {
    one_source = h.one_source;
    one_retry = h.one_retry;
    one_watchdog = h.one_watchdog;
    one_frame = h.one_frame;
    few_ticks = h.few_ticks;
    few_candles = length-evict (map_set _ event c.candle_buffer);
  }

  deliver-WellFormed :
      (payload : Delivery T B M O) (c : EventStreamClient T B M O)
      → WellFormed c
      → WellFormed (deliver payload c)
  deliver-WellFormed payload c h = record {
    one_source = h.one_source;
    one_retry = h.one_retry;
    one_watchdog = h.one_watchdog;
    one_frame = h.one_frame;
    few_ticks = h.few_ticks;
    few_candles = h.few_candles;
  }

  handle_event-WellFormed {ℓ} :
      {J A : Type ℓ} (json_parse : String → Option J) (schema : J → Option A) (refused : String)
      (act : A → EventStreamClient T B M O → EventStreamClient T B M O) (answers : Answers)
      (text : Option String) (c : EventStreamClient T B M O)
      → ((event : A) (d : EventStreamClient T B M O) → WellFormed d → WellFormed (act event d))
      → WellFormed c
      → WellFormed (handle_event json_parse schema refused act answers text c)
  handle_event-WellFormed {J} {A} json_parse schema refused act answers text c k h =
      if_split (λ (d : EventStreamClient T B M O). WellFormed d) c.stopped (λ _. h)
        (λ _. parsed text)
    where
      accepted : (event : Option A) → WellFormed (accept refused act answers event c)
      accepted none = report_invalid-WellFormed refused c h
      accepted (some event) = k event (mark_alive answers c) (mark_alive-WellFormed answers c h)

      decoded : (value : Option J) → WellFormed (decode schema refused act answers value c)
      decoded none = report_invalid-WellFormed _ c h
      decoded (some value) = accepted (schema value)

      parsed :
          (text : Option String) → WellFormed (parse json_parse schema refused act answers text c)
      parsed none = report_invalid-WellFormed _ c h
      parsed (some text) = decoded (json_parse text)

  hand_over_ticks-WellFormed :
      (ticks : List T) (c : EventStreamClient T B M O)
      → WellFormed c
      → WellFormed (hand_over_ticks ticks c)
  hand_over_ticks-WellFormed [] c h = h
  hand_over_ticks-WellFormed (tick ∷ ticks) c h = record {
    one_source = h.one_source;
    one_retry = h.one_retry;
    one_watchdog = h.one_watchdog;
    one_frame = h.one_frame;
    few_ticks = omega arith;
    few_candles = h.few_candles;
  }

  hand_over_candles-WellFormed :
      (entries : List (CandleKey × CandleEvent B)) (c : EventStreamClient T B M O)
      → WellFormed c
      → WellFormed (hand_over_candles entries c)
  hand_over_candles-WellFormed [] c h = h
  hand_over_candles-WellFormed (entry ∷ entries) c h = record {
    one_source = h.one_source;
    one_retry = h.one_retry;
    one_watchdog = h.one_watchdog;
    one_frame = h.one_frame;
    few_ticks = h.few_ticks;
    few_candles = omega arith;
  }

  flush-WellFormed : (c : EventStreamClient T B M O) → WellFormed c → WellFormed (flush c)
  flush-WellFormed c h =
      hand_over_candles-WellFormed (hand_over_ticks c.tick_buffer c).candle_buffer
        (hand_over_ticks c.tick_buffer c) (hand_over_ticks-WellFormed c.tick_buffer c h)

  on_frame-WellFormed :
      (answers : Answers) (c : EventStreamClient T B M O)
      → c.browser.frames ≡ []
      → WellFormed (record c { raf_id = none })
      → WellFormed (on_frame answers c)
  unfolding on_frame
  on_frame-WellFormed answers c e h =
      if_split (λ (d : EventStreamClient T B M O). WellFormed d)
        (ltb (answers.frame_ms - c.last_flush_at) flush_interval_ms)
        (λ _. schedule_flush-WellFormed (record c { raf_id = none }) h)
        (λ _.
          flush-WellFormed (record c { raf_id = none; last_flush_at = answers.frame_ms })
            (record {
              one_source = h.one_source;
              one_retry = h.one_retry;
              one_watchdog = h.one_watchdog;
              one_frame = h.one_frame;
              few_ticks = h.few_ticks;
              few_candles = h.few_candles;
            }))

module _ {J T B M O : Type 0} (schemas : Schemas J T B M O) (answers : Answers) where
  fire_retry-WellFormed :
      (timers : List RetryTimer) (c : EventStreamClient T B M O)
      → c.browser.retries ≡ timers
      → WellFormed c
      → WellFormed (fire_retry schemas answers timers c)
  unfolding fire_retry
  fire_retry-WellFormed [] c e h = h
  fire_retry-WellFormed (timer ∷ timers) c e h =
      connect-WellFormed answers timer.next_attempt _ (record {
        one_source = h.one_source;
        one_retry = alone_retry timer timers c.retry_timer (sym (ap retry_ids e) ∙ h.one_retry);
        one_watchdog = h.one_watchdog;
        one_frame = h.one_frame;
        few_ticks = h.few_ticks;
        few_candles = h.few_candles;
      })

  fire_watchdog-WellFormed :
      (timers : List ℕ) (c : EventStreamClient T B M O)
      → c.browser.watchdogs ≡ timers
      → WellFormed c
      → WellFormed (fire_watchdog schemas answers timers c)
  unfolding fire_watchdog
  fire_watchdog-WellFormed [] c e h = h
  fire_watchdog-WellFormed (timer ∷ timers) c e h = handle_error-WellFormed answers _ _ (record {
    one_source = h.one_source;
    one_retry = h.one_retry;
    one_watchdog = alone timers c.watchdog_timer (sym e ∙ h.one_watchdog);
    one_frame = h.one_frame;
    few_ticks = h.few_ticks;
    few_candles = h.few_candles;
  })

  fire_frame-WellFormed :
      (frames : List ℕ) (c : EventStreamClient T B M O)
      → c.browser.frames ≡ frames
      → WellFormed c
      → WellFormed (fire_frame schemas answers frames c)
  unfolding fire_frame
  fire_frame-WellFormed [] c e h = h
  fire_frame-WellFormed (frame ∷ frames) c e h =
      let none_left = alone frames c.raf_id (sym e ∙ h.one_frame) in
      on_frame-WellFormed answers _ none_left (record {
        one_source = h.one_source;
        one_retry = h.one_retry;
        one_watchdog = h.one_watchdog;
        one_frame = none_left;
        few_ticks = h.few_ticks;
        few_candles = h.few_candles;
      })

  step-WellFormed :
      (event : Event) (c : EventStreamClient T B M O)
      → WellFormed c
      → WellFormed (step schemas answers event c)
  unfolding step handle_tick handle_candle handle_metrics handle_ops
  step-WellFormed starts c h = start-WellFormed answers c h
  step-WellFormed stops c h = stop-WellFormed c h
  step-WellFormed goes_online c h = handle_online-WellFormed answers c h
  step-WellFormed opens c h = handle_open-WellFormed c h
  step-WellFormed fails c h = handle_error-WellFormed answers _ c h
  step-WellFormed pings c h =
      if_split (λ (d : EventStreamClient T B M O). WellFormed d) c.stopped (λ _. h)
        (λ _. mark_alive-WellFormed answers c h)
  step-WellFormed retry_fires c h = fire_retry-WellFormed c.browser.retries c refl h
  step-WellFormed watchdog_fires c h = fire_watchdog-WellFormed c.browser.watchdogs c refl h
  step-WellFormed frame_fires c h = fire_frame-WellFormed c.browser.frames c refl h
  step-WellFormed (tick_arrives text) c h =
      handle_event-WellFormed schemas.json_parse schemas.tick_schema _ _ answers text c
        (λ tick d k. schedule_flush-WellFormed (push_tick tick d) (push_tick-WellFormed tick d k)) h
  step-WellFormed (candle_arrives text) c h =
      handle_event-WellFormed schemas.json_parse schemas.candle_schema _ _ answers text c
        (λ candle d k.
          schedule_flush-WellFormed (push_candle candle d) (push_candle-WellFormed candle d k))
        h
  step-WellFormed (metrics_arrives text) c h =
      handle_event-WellFormed schemas.json_parse schemas.metrics_schema _
        (λ event. deliver (on_metrics event)) answers text c
        (λ event d k. deliver-WellFormed (on_metrics event) d k) h
  step-WellFormed (ops_arrives text) c h =
      handle_event-WellFormed schemas.json_parse schemas.ops_schema _
        (λ event. deliver (on_ops event)) answers text c
        (λ event d k. deliver-WellFormed (on_ops event) d k) h
  step-WellFormed (subscribes handler) c h = record {
    one_source = h.one_source;
    one_retry = h.one_retry;
    one_watchdog = h.one_watchdog;
    one_frame = h.one_frame;
    few_ticks = h.few_ticks;
    few_candles = h.few_candles;
  }
  step-WellFormed (unsubscribes handler) c h = record {
    one_source = h.one_source;
    one_retry = h.one_retry;
    one_watchdog = h.one_watchdog;
    one_frame = h.one_frame;
    few_ticks = h.few_ticks;
    few_candles = h.few_candles;
  }
  step-WellFormed (subscribes_status listener) c h = record {
    one_source = h.one_source;
    one_retry = h.one_retry;
    one_watchdog = h.one_watchdog;
    one_frame = h.one_frame;
    few_ticks = h.few_ticks;
    few_candles = h.few_candles;
  }
  step-WellFormed (unsubscribes_status listener) c h = record {
    one_source = h.one_source;
    one_retry = h.one_retry;
    one_watchdog = h.one_watchdog;
    one_frame = h.one_frame;
    few_ticks = h.few_ticks;
    few_candles = h.few_candles;
  }

module _ {J T B M O : Type 0} (schemas : Schemas J T B M O) where
  run-WellFormed :
      (history : List (Answers × Event)) (c : EventStreamClient T B M O)
      → WellFormed c
      → WellFormed (run schemas history c)
  unfolding run
  run-WellFormed [] c h = h
  run-WellFormed ((answers, event) ∷ history) c h =
      run-WellFormed history (step schemas answers event c)
        (step-WellFormed schemas answers event c h)

  -- After any history of a client: the browser holds the connection, the retry, the watchdog and the frame
  -- request that the fields name and no others, so that at most one of each is open, and the buffers hold at
  -- most 240 ticks and 64 candles.
  pub event_stream_is_tidy :
      (history : List (Answers × Event))
      → WellFormed (run schemas history (new_client {T = T} {B = B} {M = M} {O = O}))
  event_stream_is_tidy history = run-WellFormed history new_client (record {
    one_source = refl;
    one_retry = refl;
    one_watchdog = refl;
    one_frame = refl;
    few_ticks = omega arith;
    few_candles = omega arith;
  })
