-- ===== src/Frontend/EventStream/Methods.antt =====
-- The methods of `EventStreamClient`, each from the fields and the browser to those it leaves.
use Prim.Native.String.{String}
use ariai_exam.Prelude.{
  ℕ, suc, ◌+◌, Bool, ◌||◌, not, true, false, [], ◌∷◌, ◌++◌, map, Option, none, some, ◌==◌,
  if◌then◌else◌, when_none,
}
use ariai_exam.Frontend.EventStream.{
  EventStreamClient, connecting, live, reconnecting, closed, same_status, StreamSnapshot,
  idle_snapshot, backoff_delay, Browser, Answers, without, without_retry, same_error, CandleEvent,
  candle_key_eq, Delivery,
}

-- The schemas of schemas.ts and `JSON.parse`; `none` is a failure.
pub record Schemas (J T B M O : Type 0) : Type 0 where
  pub json_parse : String → Option J
  pub tick_schema : J → Option T
  pub candle_schema : J → Option (CandleEvent B)
  pub metrics_schema : J → Option M
  pub ops_schema : J → Option O

-- `createSource(url)` with nothing pending in the browser.
abbrev pub new_browser : Browser
new_browser = record { sources = []; retries = []; watchdogs = []; frames = []; next_id = 0 }

abbrev pub changed : StreamSnapshot → StreamSnapshot → Bool
changed merged old =
    not (same_status merged.status old.status)
    || not (merged.attempt == old.attempt)
    || not (same_error merged.last_error old.last_error)
    || not (merged.invalid_count == old.invalid_count)

module _ {T B M O : Type 0} where
  abbrev pub new_client : EventStreamClient T B M O
  new_client = record {
    source = none;
    retry_timer = none;
    watchdog_timer = none;
    raf_id = none;
    last_flush_at = 0;
    stopped = true;
    snapshot = idle_snapshot;
    last_event_at_ms = none;
    status_listeners = [];
    handlers = [];
    tick_buffer = [];
    candle_buffer = [];
    browser = new_browser;
    notified = [];
    delivered = [];
  }

  abbrev pub subscribe : ℕ → EventStreamClient T B M O → EventStreamClient T B M O
  subscribe handler c = record c { handlers = without (some handler) c.handlers ++ (handler ∷ []) }

  abbrev pub unsubscribe : ℕ → EventStreamClient T B M O → EventStreamClient T B M O
  unsubscribe handler c = record c { handlers = without (some handler) c.handlers }

  abbrev pub subscribe_status : ℕ → EventStreamClient T B M O → EventStreamClient T B M O
  subscribe_status listener c = record c {
    status_listeners = without (some listener) c.status_listeners ++ (listener ∷ []);
  }

  abbrev pub unsubscribe_status : ℕ → EventStreamClient T B M O → EventStreamClient T B M O
  unsubscribe_status listener c = record c {
    status_listeners = without (some listener) c.status_listeners;
  }

  -- `patch`, given the merged snapshot: where nothing changed, the object and the listeners are left.
  abbrev pub patch : StreamSnapshot → EventStreamClient T B M O → EventStreamClient T B M O
  patch merged c = record c {
    snapshot = if changed merged c.snapshot then merged else c.snapshot;
    notified = if changed merged c.snapshot then c.notified ++ c.status_listeners else c.notified;
  }

  -- `for (const handler of this.handlers) handler.on…?.(…)`
  abbrev pub deliver : Delivery T B M O → EventStreamClient T B M O → EventStreamClient T B M O
  deliver payload c = record c {
    delivered = c.delivered ++ map (λ handler. (handler, payload)) c.handlers;
  }

  -- A field that is null holds nothing to clear, and stays null.
  abbrev pub clear_retry : EventStreamClient T B M O → EventStreamClient T B M O
  clear_retry c = record c {
    retry_timer = none;
    browser = record c.browser { retries = without_retry c.retry_timer c.browser.retries };
  }

  abbrev pub clear_watchdog : EventStreamClient T B M O → EventStreamClient T B M O
  clear_watchdog c = record c {
    watchdog_timer = none;
    browser = record c.browser { watchdogs = without c.watchdog_timer c.browser.watchdogs };
  }

  abbrev pub close_source : EventStreamClient T B M O → EventStreamClient T B M O
  close_source c = record c {
    source = none;
    browser = record c.browser { sources = without c.source c.browser.sources };
  }

  abbrev pub cancel_flush : EventStreamClient T B M O → EventStreamClient T B M O
  cancel_flush c = record c {
    raf_id = none;
    browser = record c.browser { frames = without c.raf_id c.browser.frames };
  }

  -- `setTimeout(…, STALE_AFTER_MS)`
  abbrev pub set_watchdog : EventStreamClient T B M O → EventStreamClient T B M O
  set_watchdog c = record c {
    watchdog_timer = some c.browser.next_id;
    browser = record c.browser {
      watchdogs = c.browser.watchdogs ++ (c.browser.next_id ∷ []);
      next_id = suc c.browser.next_id;
    };
  }

  unfoldable pub arm_watchdog : EventStreamClient T B M O → EventStreamClient T B M O
  arm_watchdog c =
      let cleared = clear_watchdog c in if cleared.stopped then cleared else set_watchdog cleared

  -- `setTimeout(…, backoffDelay(current))`
  abbrev pub set_retry : Answers → ℕ → EventStreamClient T B M O → EventStreamClient T B M O
  set_retry answers current c = record c {
    retry_timer = some c.browser.next_id;
    browser = record c.browser {
      retries =
          c.browser.retries
          ++ (record {
            retry_id = c.browser.next_id;
            next_attempt = current + 1;
            delay_ms = backoff_delay answers.random current;
          }
              ∷ []);
      next_id = suc c.browser.next_id;
    };
  }

  abbrev pub retry_later : Answers → String → EventStreamClient T B M O → EventStreamClient T B M O
  retry_later answers message c =
      let current = c.snapshot.attempt in
      set_retry answers current (
        patch
          (record c.snapshot {
            status = reconnecting;
            attempt = current + 1;
            last_error = some message;
          })
          c)

  unfoldable pub schedule_retry :
      Answers → String → EventStreamClient T B M O → EventStreamClient T B M O
  schedule_retry answers message c =
      if c.stopped then c else when_none c.retry_timer (retry_later answers message c) c

  -- `this.source = source`, with its listeners.
  abbrev pub set_source : EventStreamClient T B M O → EventStreamClient T B M O
  set_source c = record c {
    source = some c.browser.next_id;
    browser = record c.browser {
      sources = c.browser.sources ++ (c.browser.next_id ∷ []);
      next_id = suc c.browser.next_id;
    };
  }

  -- `createSource` throws a message or gives a connection.
  unfoldable pub open_source :
      Answers → Option String → EventStreamClient T B M O → EventStreamClient T B M O
  open_source answers (some message) c = schedule_retry answers message c
  open_source answers none c = arm_watchdog (set_source c)

  unfoldable pub connect : Answers → ℕ → EventStreamClient T B M O → EventStreamClient T B M O
  connect answers attempt c =
      let started = close_source c in
      let status' = if attempt == 0 then connecting else reconnecting in
      if c.stopped
      then c
      else open_source answers answers.create_error
          (patch (record started.snapshot { status = status'; attempt = attempt }) started)

  unfoldable pub start : Answers → EventStreamClient T B M O → EventStreamClient T B M O
  start answers c = if c.stopped then connect answers 0 (record c { stopped = false }) else c

  unfoldable pub stop : EventStreamClient T B M O → EventStreamClient T B M O
  stop c =
      let closed_down =
        close_source (cancel_flush (clear_watchdog (clear_retry (record c { stopped = true })))) in
      let emptied = record closed_down { tick_buffer = []; candle_buffer = [] } in
      patch (record emptied.snapshot { status = closed }) emptied

  unfoldable pub handle_online : Answers → EventStreamClient T B M O → EventStreamClient T B M O
  handle_online answers c =
      if c.stopped || not (same_status c.snapshot.status reconnecting)
      then c
      else let cleared = clear_retry c in connect answers cleared.snapshot.attempt cleared

  -- The listener of `open`.
  unfoldable pub handle_open : EventStreamClient T B M O → EventStreamClient T B M O
  handle_open c =
      if c.stopped
      then c
      else patch (record c.snapshot { status = live; attempt = 0; last_error = none }) c

  -- The listener of `error`, and the callback of the watchdog once it has cleared its field.
  unfoldable pub handle_error :
      Answers → String → EventStreamClient T B M O → EventStreamClient T B M O
  handle_error answers message c =
      if c.stopped then c else schedule_retry answers message (close_source c)
