-- ===== src/Frontend/EventStream/Liveness.antt =====
-- A client that has been started always has something pending that brings the stream back.
use Prim.Native.String.{String}
use ariai_exam.Prelude.{
  ℕ, ◌-◌, ◌||◌, ltb, ◌==◌, ◌≡◌, ◌≢◌, ◌⊎◌, ◌∙◌, ap, refl, arith, inl, inr, not, true, List, [], ◌∷◌,
  Option, none, some, when_none_split, if_split,
}
use ariai_exam.Frontend.EventStream.{
  EventStreamClient, live, reconnecting, same_status, RetryTimer, Answers, CandleKey, CandleEvent,
  flush_interval_ms, on_metrics, on_ops,
}
use ariai_exam.Frontend.EventStream.Methods.{
  Schemas, new_client, deliver, arm_watchdog, schedule_retry, start, stop, handle_online,
  handle_open, handle_error, set_source, close_source, clear_retry, open_source, connect,
}
use ariai_exam.Frontend.EventStream.Machine.{
  mark_alive, schedule_flush, push_tick, push_candle, accept, decode, parse, handle_event,
  hand_over_ticks, hand_over_candles, on_frame, handle_tick, handle_candle, handle_metrics,
  handle_ops, fire_retry, fire_watchdog, fire_frame, step, run, Event, starts, stops, goes_online,
  opens, fails, pings, retry_fires, watchdog_fires, frame_fires, tick_arrives, candle_arrives,
  metrics_arrives, ops_arrives, subscribes, unsubscribes, subscribes_status, unsubscribes_status,
}
use ariai_exam.Frontend.EventStream.Handles.{to_list, retry_ids, WellFormed}
use ariai_exam.Frontend.EventStream.Histories.{event_stream_is_tidy}

named {ℓ} : {A : Type ℓ} (o : Option A) → o ≢ none → (a : A) × (o ≡ some a)
named none h = absurd (h refl)
named (some a) h = (a, refl)

module _ {T B M O : Type 0} where
  -- By its fields, the client waits for a retry, or has a connection and a watchdog.
  abbrev Waiting : EventStreamClient T B M O → Type 0
  Waiting c = (c.retry_timer ≢ none) ⊎ ((c.source ≢ none) × (c.watchdog_timer ≢ none))

  abbrev Recovering : EventStreamClient T B M O → Type 0
  Recovering c = (c.stopped ≡ true) ⊎ Waiting c

  arm_watchdog-Recovering :
      (c : EventStreamClient T B M O)
      → (c.retry_timer ≢ none) ⊎ (c.source ≢ none)
      → Recovering (arm_watchdog c)
  unfolding arm_watchdog
  arm_watchdog-Recovering c w =
      if_split (λ (d : EventStreamClient T B M O). Recovering d) c.stopped (λ e. inl e)
        (λ _. inr (elim w [ inl retry ↦ inl retry | inr source ↦ inr (source, λ e. cc) ]))

  retry_or_source :
      (c : EventStreamClient T B M O) → Waiting c → (c.retry_timer ≢ none) ⊎ (c.source ≢ none)
  retry_or_source c (inl retry) = inl retry
  retry_or_source c (inr (source, watchdog)) = inr source

  schedule_retry-Recovering :
      (answers : Answers) (message : String) (c : EventStreamClient T B M O)
      → Recovering (schedule_retry answers message c)
  unfolding schedule_retry
  schedule_retry-Recovering answers message c =
      if_split (λ (d : EventStreamClient T B M O). Recovering d) c.stopped (λ e. inl e)
        (λ _.
          when_none_split (λ (d : EventStreamClient T B M O). Recovering d) c.retry_timer
            (λ _. inr (inl (λ e. cc))) (λ id e. inr (inl (λ k. absurd (ground (arith, e, k))))))

  open_source-Recovering :
      (answers : Answers) (thrown : Option String) (c : EventStreamClient T B M O)
      → Recovering (open_source answers thrown c)
  unfolding open_source
  open_source-Recovering answers (some message) c = schedule_retry-Recovering answers message c
  open_source-Recovering answers none c = arm_watchdog-Recovering (set_source c) (inr (λ e. cc))

  connect-Recovering :
      (answers : Answers) (attempt : ℕ) (c : EventStreamClient T B M O)
      → Recovering (connect answers attempt c)
  unfolding connect
  connect-Recovering answers attempt c =
      if_split (λ (d : EventStreamClient T B M O). Recovering d) c.stopped (λ e. inl e)
        (λ _. open_source-Recovering answers answers.create_error _)

  start-Recovering :
      (answers : Answers) (c : EventStreamClient T B M O)
      → Recovering c
      → Recovering (start answers c)
  unfolding start
  start-Recovering answers c h =
      if_split (λ (d : EventStreamClient T B M O). Recovering d) c.stopped
        (λ _. connect-Recovering answers 0 _) (λ _. h)

  handle_online-Recovering :
      (answers : Answers) (c : EventStreamClient T B M O)
      → Recovering c
      → Recovering (handle_online answers c)
  unfolding handle_online
  handle_online-Recovering answers c h =
      if_split (λ (d : EventStreamClient T B M O). Recovering d)
        (c.stopped || not (same_status c.snapshot.status reconnecting)) (λ _. h)
        (λ _. connect-Recovering answers c.snapshot.attempt (clear_retry c))

  handle_open-Recovering :
      (c : EventStreamClient T B M O) → Recovering c → Recovering (handle_open c)
  unfolding handle_open
  handle_open-Recovering c h =
      if_split (λ (d : EventStreamClient T B M O). Recovering d) c.stopped (λ _. h) (λ _. h)

  handle_error-Recovering :
      (answers : Answers) (message : String) (c : EventStreamClient T B M O)
      → Recovering (handle_error answers message c)
  unfolding handle_error
  handle_error-Recovering answers message c =
      if_split (λ (d : EventStreamClient T B M O). Recovering d) c.stopped (λ e. inl e)
        (λ _. schedule_retry-Recovering answers message (close_source c))

  arm_stopped : (c : EventStreamClient T B M O) → c.stopped ≡ true → Recovering (arm_watchdog c)
  unfolding arm_watchdog
  arm_stopped c e =
      if_split (λ (d : EventStreamClient T B M O). Recovering d) c.stopped (λ k. inl k)
        (λ k. absurd (ground (arith, e, k)))

  mark_alive-Recovering :
      (answers : Answers) (c : EventStreamClient T B M O)
      → Recovering c
      → Recovering (mark_alive answers c)
  unfolding mark_alive
  mark_alive-Recovering answers c h =
      let seen : EventStreamClient T B M O = record c { last_event_at_ms = some answers.now_ms } in
      let armed = arm_watchdog seen in
      let h' : Recovering armed = elim h [
        | inl stopped ↦ arm_stopped seen stopped
        | inr waiting ↦ arm_watchdog-Recovering seen (retry_or_source c waiting)
      ] in
      if_split (λ (d : EventStreamClient T B M O). Recovering d)
        (not (same_status armed.snapshot.status live) || not (armed.snapshot.attempt == 0))
        (λ _. h') (λ _. h')

  schedule_flush-Recovering :
      (c : EventStreamClient T B M O) → Recovering c → Recovering (schedule_flush c)
  unfolding schedule_flush
  schedule_flush-Recovering c h =
      when_none_split (λ (d : EventStreamClient T B M O). Recovering d) c.raf_id (λ _. h) (λ _ _. h)

  handle_event-Recovering {ℓ} :
      {J A : Type ℓ} (json_parse : String → Option J) (schema : J → Option A) (refused : String)
      (act : A → EventStreamClient T B M O → EventStreamClient T B M O) (answers : Answers)
      (text : Option String) (c : EventStreamClient T B M O)
      → ((event : A) (d : EventStreamClient T B M O) → Recovering d → Recovering (act event d))
      → Recovering c
      → Recovering (handle_event json_parse schema refused act answers text c)
  handle_event-Recovering {J} {A} json_parse schema refused act answers text c k h =
      if_split (λ (d : EventStreamClient T B M O). Recovering d) c.stopped (λ _. h)
        (λ _. parsed text)
    where
      accepted : (event : Option A) → Recovering (accept refused act answers event c)
      accepted none = h
      accepted (some event) = k event (mark_alive answers c) (mark_alive-Recovering answers c h)

      decoded : (value : Option J) → Recovering (decode schema refused act answers value c)
      decoded none = h
      decoded (some value) = accepted (schema value)

      parsed :
          (text : Option String) → Recovering (parse json_parse schema refused act answers text c)
      parsed none = h
      parsed (some text) = decoded (json_parse text)

  hand_over_ticks-Recovering :
      (ticks : List T) (c : EventStreamClient T B M O)
      → Recovering c
      → Recovering (hand_over_ticks ticks c)
  hand_over_ticks-Recovering [] c h = h
  hand_over_ticks-Recovering (tick ∷ ticks) c h = h

  hand_over_candles-Recovering :
      (entries : List (CandleKey × CandleEvent B)) (c : EventStreamClient T B M O)
      → Recovering c
      → Recovering (hand_over_candles entries c)
  hand_over_candles-Recovering [] c h = h
  hand_over_candles-Recovering (entry ∷ entries) c h = h

  on_frame-Recovering :
      (answers : Answers) (c : EventStreamClient T B M O)
      → Recovering c
      → Recovering (on_frame answers c)
  unfolding on_frame
  on_frame-Recovering answers c h =
      let taken : EventStreamClient T B M O = record c { raf_id = none } in
      let flushing : EventStreamClient T B M O = record taken {
        last_flush_at = answers.frame_ms;
      } in
      let handed = hand_over_ticks c.tick_buffer flushing in
      if_split (λ (d : EventStreamClient T B M O). Recovering d)
        (ltb (answers.frame_ms - c.last_flush_at) flush_interval_ms)
        (λ _. schedule_flush-Recovering taken h)
        (λ _.
          hand_over_candles-Recovering handed.candle_buffer handed
            (hand_over_ticks-Recovering c.tick_buffer flushing h))

module _ {T B M O : Type 0} where
  -- The browser holds the timer of the retry that the client waits for.
  abbrev pub RetryHeld : EventStreamClient T B M O → Type 0
  RetryHeld c = (id : ℕ) × (c.retry_timer ≡ some id) × (retry_ids c.browser.retries ≡ id ∷ [])

  -- The browser holds the connection of the client, and the timer of its watchdog.
  abbrev pub ConnectionWatched : EventStreamClient T B M O → Type 0
  ConnectionWatched c =
      (id : ℕ) × (timer : ℕ) × (c.source ≡ some id)
      × (c.browser.sources ≡ id ∷ [])
      × (c.watchdog_timer ≡ some timer)
      × (c.browser.watchdogs ≡ timer ∷ [])

  abbrev pub ComesBack : EventStreamClient T B M O → Type 0
  ComesBack c = (c.stopped ≡ true) ⊎ (RetryHeld c ⊎ ConnectionWatched c)

  Waiting-ComesBack :
      (c : EventStreamClient T B M O) → WellFormed c → Waiting c → RetryHeld c ⊎ ConnectionWatched c
  Waiting-ComesBack c h (inl retry) =
      let (id, e) = named c.retry_timer retry in inl (id, e, h.one_retry ∙ ap to_list e)
  Waiting-ComesBack c h (inr (source, watchdog)) =
      let (id, e) = named c.source source in
      let (timer, k) = named c.watchdog_timer watchdog in
      inr (id, timer, e, h.one_source ∙ ap to_list e, k, h.one_watchdog ∙ ap to_list k)

  Recovering-ComesBack : (c : EventStreamClient T B M O) → WellFormed c → Recovering c → ComesBack c
  Recovering-ComesBack c h (inl stopped) = inl stopped
  Recovering-ComesBack c h (inr waiting) = inr (Waiting-ComesBack c h waiting)

module _ {J T B M O : Type 0} (schemas : Schemas J T B M O) (answers : Answers) where
  fire_retry-Recovering :
      (timers : List RetryTimer) (c : EventStreamClient T B M O)
      → Recovering c
      → Recovering (fire_retry schemas answers timers c)
  unfolding fire_retry
  fire_retry-Recovering [] c h = h
  fire_retry-Recovering (timer ∷ timers) c h = connect-Recovering answers timer.next_attempt _

  fire_watchdog-Recovering :
      (timers : List ℕ) (c : EventStreamClient T B M O)
      → Recovering c
      → Recovering (fire_watchdog schemas answers timers c)
  unfolding fire_watchdog
  fire_watchdog-Recovering [] c h = h
  fire_watchdog-Recovering (timer ∷ timers) c h = handle_error-Recovering answers _ _

  fire_frame-Recovering :
      (frames : List ℕ) (c : EventStreamClient T B M O)
      → Recovering c
      → Recovering (fire_frame schemas answers frames c)
  unfolding fire_frame
  fire_frame-Recovering [] c h = h
  fire_frame-Recovering (frame ∷ frames) c h = on_frame-Recovering answers _ h

  step-Recovering :
      (event : Event) (c : EventStreamClient T B M O)
      → Recovering c
      → Recovering (step schemas answers event c)
  unfolding step handle_tick handle_candle handle_metrics handle_ops stop
  step-Recovering starts c h = start-Recovering answers c h
  step-Recovering stops c h = inl refl
  step-Recovering goes_online c h = handle_online-Recovering answers c h
  step-Recovering opens c h = handle_open-Recovering c h
  step-Recovering fails c h = handle_error-Recovering answers _ c
  step-Recovering pings c h =
      if_split (λ (d : EventStreamClient T B M O). Recovering d) c.stopped (λ _. h)
        (λ _. mark_alive-Recovering answers c h)
  step-Recovering retry_fires c h = fire_retry-Recovering c.browser.retries c h
  step-Recovering watchdog_fires c h = fire_watchdog-Recovering c.browser.watchdogs c h
  step-Recovering frame_fires c h = fire_frame-Recovering c.browser.frames c h
  step-Recovering (tick_arrives text) c h =
      handle_event-Recovering schemas.json_parse schemas.tick_schema _
        (λ tick d. schedule_flush (push_tick tick d)) answers text c
        (λ tick d k. schedule_flush-Recovering (push_tick tick d) k) h
  step-Recovering (candle_arrives text) c h =
      handle_event-Recovering schemas.json_parse schemas.candle_schema _
        (λ candle d. schedule_flush (push_candle candle d)) answers text c
        (λ candle d k. schedule_flush-Recovering (push_candle candle d) k) h
  step-Recovering (metrics_arrives text) c h =
      handle_event-Recovering schemas.json_parse schemas.metrics_schema _
        (λ event. deliver (on_metrics event)) answers text c (λ event d k. k) h
  step-Recovering (ops_arrives text) c h =
      handle_event-Recovering schemas.json_parse schemas.ops_schema _
        (λ event. deliver (on_ops event)) answers text c (λ event d k. k) h
  step-Recovering (subscribes handler) c h = h
  step-Recovering (unsubscribes handler) c h = h
  step-Recovering (subscribes_status listener) c h = h
  step-Recovering (unsubscribes_status listener) c h = h

module _ {J T B M O : Type 0} (schemas : Schemas J T B M O) where
  run-Recovering :
      (history : List (Answers × Event)) (c : EventStreamClient T B M O)
      → Recovering c
      → Recovering (run schemas history c)
  unfolding run
  run-Recovering [] c h = h
  run-Recovering ((answers, event) ∷ history) c h =
      run-Recovering history (step schemas answers event c)
        (step-Recovering schemas answers event c h)

  -- After any history, a client that is not stopped waits for a retry whose timer the browser holds, or has a
  -- connection that the browser holds, with a watchdog whose timer the browser holds: the stream cannot freeze with
  -- nothing left that would reconnect it.
  pub event_stream_recovers :
      (history : List (Answers × Event))
      → ComesBack (run schemas history (new_client {T = T} {B = B} {M = M} {O = O}))
  event_stream_recovers history =
      Recovering-ComesBack _ (event_stream_is_tidy schemas history)
        (run-Recovering history new_client (inl refl))
