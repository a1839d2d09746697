-- ===== src/Frontend/EventStream/Handles.antt =====
-- The browser holds what the fields of `EventStreamClient` name, and nothing else.
use Prim.Native.String.{String}
use ariai_exam.Prelude.{
  ℕ, ◌||◌, ◌≤◌, length, ◌≡◌, refl, arith, ap, ◌∙◌, Bool, not, false, List, [], ◌∷◌, ◌++◌, map,
  Option, none, some, when_none_split, if_split,
}
use ariai_exam.Frontend.EventStream.{
  EventStreamClient, live, reconnecting, same_status, max_tick_buffer, max_candle_buffer,
  RetryTimer, Answers, without, without_retry,
}
use ariai_exam.Frontend.EventStream.Methods.{
  patch, clear_retry, clear_watchdog, close_source, cancel_flush, arm_watchdog, schedule_retry,
  set_source, start, stop, handle_online, handle_open, handle_error, open_source, connect,
}

abbrev pub to_list {ℓ} : {A : Type ℓ} → Option A → List A
to_list none = []
to_list (some a) = a ∷ []

abbrev pub retry_ids : List RetryTimer → List ℕ
retry_ids = map (λ timer. timer.retry_id)

without-to_list : (o : Option ℕ) → without o (to_list o) ≡ []
without-to_list none = refl
without-to_list (some id) = ground arith

without_retry-to_list :
    (o : Option ℕ) (timers : List RetryTimer)
    → retry_ids timers ≡ to_list o
    → retry_ids (without_retry o timers) ≡ []
without_retry-to_list none timers h = h
without_retry-to_list (some id) [] h = refl
without_retry-to_list (some id) (timer ∷ []) h = ground (arith, h)
without_retry-to_list (some id) (timer ∷ other ∷ timers) h = absurd (ground (arith, h))

pending_retry :
    (timers : List RetryTimer) (timer : RetryTimer)
    → retry_ids timers ≡ []
    → retry_ids (timers ++ (timer ∷ [])) ≡ timer.retry_id ∷ []
pending_retry [] next h = refl
pending_retry (timer ∷ timers) next h = absurd (ground (arith, h))

module _ {T B M O : Type 0} where
  pub record WellFormed (c : EventStreamClient T B M O) : Type 0 where
    pub one_source : c.browser.sources ≡ to_list c.source
    pub one_retry : retry_ids c.browser.retries ≡ to_list c.retry_timer
    pub one_watchdog : c.browser.watchdogs ≡ to_list c.watchdog_timer
    pub one_frame : c.browser.frames ≡ to_list c.raf_id
    pub few_ticks : length c.tick_buffer ≤ max_tick_buffer
    pub few_candles : length c.candle_buffer ≤ max_candle_buffer

  pub patch-WellFormed :
      (n : _) (c : EventStreamClient T B M O) → WellFormed c → WellFormed (patch n c)
  patch-WellFormed n c h = record {
    one_source = h.one_source;
    one_retry = h.one_retry;
    one_watchdog = h.one_watchdog;
    one_frame = h.one_frame;
    few_ticks = h.few_ticks;
    few_candles = h.few_candles;
  }

  with_stopped :
      (b : Bool) (c : EventStreamClient T B M O)
      → WellFormed c
      → WellFormed (record c { stopped = b })
  with_stopped b c h = record {
    one_source = h.one_source;
    one_retry = h.one_retry;
    one_watchdog = h.one_watchdog;
    one_frame = h.one_frame;
    few_ticks = h.few_ticks;
    few_candles = h.few_candles;
  }

  clear_retry-WellFormed :
      (c : EventStreamClient T B M O) → WellFormed c → WellFormed (clear_retry c)
  clear_retry-WellFormed c h = record {
    one_source = h.one_source;
    one_retry = without_retry-to_list c.retry_timer c.browser.retries h.one_retry;
    one_watchdog = h.one_watchdog;
    one_frame = h.one_frame;
    few_ticks = h.few_ticks;
    few_candles = h.few_candles;
  }

  clear_watchdog-WellFormed :
      (c : EventStreamClient T B M O) → WellFormed c → WellFormed (clear_watchdog c)
  clear_watchdog-WellFormed c h = record {
    one_source = h.one_source;
    one_retry = h.one_retry;
    one_watchdog = ap (without c.watchdog_timer) h.one_watchdog ∙ without-to_list c.watchdog_timer;
    one_frame = h.one_frame;
    few_ticks = h.few_ticks;
    few_candles = h.few_candles;
  }

  close_source-WellFormed :
      (c : EventStreamClient T B M O) → WellFormed c → WellFormed (close_source c)
  close_source-WellFormed c h = record {
    one_source = ap (without c.source) h.one_source ∙ without-to_list c.source;
    one_retry = h.one_retry;
    one_watchdog = h.one_watchdog;
    one_frame = h.one_frame;
    few_ticks = h.few_ticks;
    few_candles = h.few_candles;
  }

  cancel_flush-WellFormed :
      (c : EventStreamClient T B M O) → WellFormed c → WellFormed (cancel_flush c)
  cancel_flush-WellFormed c h = record {
    one_source = h.one_source;
    one_retry = h.one_retry;
    one_watchdog = h.one_watchdog;
    one_frame = ap (without c.raf_id) h.one_frame ∙ without-to_list c.raf_id;
    few_ticks = h.few_ticks;
    few_candles = h.few_candles;
  }

  pub arm_watchdog-WellFormed :
      (c : EventStreamClient T B M O) → WellFormed c → WellFormed (arm_watchdog c)
  unfolding arm_watchdog
  arm_watchdog-WellFormed c h =
      let cleared = clear_watchdog-WellFormed c h in
      if_split (λ (d : EventStreamClient T B M O). WellFormed d) c.stopped (λ _. cleared)
        (λ _. record {
          one_source = cleared.one_source;
          one_retry = cleared.one_retry;
          one_watchdog = ap (λ ids. ids ++ (c.browser.next_id ∷ [])) cleared.one_watchdog;
          one_frame = cleared.one_frame;
          few_ticks = h.few_ticks;
          few_candles = h.few_candles;
        })

  schedule_retry-WellFormed :
      (answers : Answers) (message : String) (c : EventStreamClient T B M O)
      → WellFormed c
      → WellFormed (schedule_retry answers message c)
  unfolding schedule_retry
  schedule_retry-WellFormed answers message c h =
      if_split (λ (d : EventStreamClient T B M O). WellFormed d) c.stopped (λ _. h)
        (λ _.
          when_none_split (λ (d : EventStreamClient T B M O). WellFormed d) c.retry_timer
            (λ e. record {
              one_source = h.one_source;
              one_retry = pending_retry c.browser.retries _ (h.one_retry ∙ ap to_list e);
              one_watchdog = h.one_watchdog;
              one_frame = h.one_frame;
              few_ticks = h.few_ticks;
              few_candles = h.few_candles;
            })
            (λ _ _. h))

  open_source-WellFormed :
      (answers : Answers) (thrown : Option String) (c : EventStreamClient T B M O)
      → c.source ≡ none
      → WellFormed c
      → WellFormed (open_source answers thrown c)
  unfolding open_source
  open_source-WellFormed answers (some message) c e h =
      schedule_retry-WellFormed answers message c h
  open_source-WellFormed answers none c e h = arm_watchdog-WellFormed (set_source c) (record {
    one_source = ap (λ ids. ids ++ (c.browser.next_id ∷ [])) (h.one_source ∙ ap to_list e);
    one_retry = h.one_retry;
    one_watchdog = h.one_watchdog;
    one_frame = h.one_frame;
    few_ticks = h.few_ticks;
    few_candles = h.few_candles;
  })

  pub connect-WellFormed :
      (answers : Answers) (attempt : ℕ) (c : EventStreamClient T B M O)
      → WellFormed c
      → WellFormed (connect answers attempt c)
  unfolding connect
  connect-WellFormed answers attempt c h =
      if_split (λ (d : EventStreamClient T B M O). WellFormed d) c.stopped (λ _. h)
        (λ _.
          open_source-WellFormed answers answers.create_error (patch _ (close_source c)) refl
            (patch-WellFormed _ (close_source c) (close_source-WellFormed c h)))

  pub start-WellFormed :
      (answers : Answers) (c : EventStreamClient T B M O)
      → WellFormed c
      → WellFormed (start answers c)
  unfolding start
  start-WellFormed answers c h =
      if_split (λ (d : EventStreamClient T B M O). WellFormed d) c.stopped
        (λ _. connect-WellFormed answers 0 (record c { stopped = false }) (with_stopped false c h))
        (λ _. h)

  pub stop-WellFormed : (c : EventStreamClient T B M O) → WellFormed c → WellFormed (stop c)
  unfolding stop
  stop-WellFormed c h =
      let h1 = clear_watchdog-WellFormed (clear_retry c) (clear_retry-WellFormed c h) in
      let h2 =
        close_source-WellFormed (cancel_flush (clear_watchdog (clear_retry c)))
          (cancel_flush-WellFormed (clear_watchdog (clear_retry c)) h1) in
      record {
        one_source = h2.one_source;
        one_retry = h2.one_retry;
        one_watchdog = h2.one_watchdog;
        one_frame = h2.one_frame;
        few_ticks = omega arith;
        few_candles = omega arith;
      }

  pub handle_online-WellFormed :
      (answers : Answers) (c : EventStreamClient T B M O)
      → WellFormed c
      → WellFormed (handle_online answers c)
  unfolding handle_online
  handle_online-WellFormed answers c h =
      if_split (λ (d : EventStreamClient T B M O). WellFormed d)
        (c.stopped || not (same_status c.snapshot.status reconnecting)) (λ _. h)
        (λ _.
          connect-WellFormed answers c.snapshot.attempt (clear_retry c)
            (clear_retry-WellFormed c h))

  pub handle_open-WellFormed :
      (c : EventStreamClient T B M O) → WellFormed c → WellFormed (handle_open c)
  unfolding handle_open
  handle_open-WellFormed c h =
      if_split (λ (d : EventStreamClient T B M O). WellFormed d) c.stopped (λ _. h)
        (λ _.
          patch-WellFormed (record c.snapshot { status = live; attempt = 0; last_error = none }) c
            h)

  pub handle_error-WellFormed :
      (answers : Answers) (message : String) (c : EventStreamClient T B M O)
      → WellFormed c
      → WellFormed (handle_error answers message c)
  unfolding handle_error
  handle_error-WellFormed answers message c h =
      if_split (λ (d : EventStreamClient T B M O). WellFormed d) c.stopped (λ _. h)
        (λ _.
          schedule_retry-WellFormed answers message (close_source c) (close_source-WellFormed c h))
