-- ===== src/Ingest/Service.antt =====
-- backend/src/ingest/ingest.service.ts: what arrives, what is buffered and what is written. The repositories, the
-- parser and the subscribers of events are the environment; a flush is cut at its awaits.
pub mod Conservation
mod Tests
use Prim.Native.String.{String}
use ariai_exam.Prelude.{
  ◌-◌, map, ℕ, ◌+◌, Bool, ◌&&◌, not, true, false, List, [], ◌∷◌, ◌++◌, Option, none, some, Result,
  ok, err, ltb, if◌then◌else◌, string_eq, map_get, map_set, length, take,
}
use ariai_exam.Ingest.TradeBuffer.{TradeBuffer, size, add, drain, restore}
use ariai_exam.Ingest.StateStore.{StateStore, PendingState, mark_kline, mark_trade, flush_done}

pub data FlushReason : Type 0 where
  interval max_rows shutdown : FlushReason

-- `MutableStreamHealth`
pub record StreamHealth : Type 0 where
  pub last_event_at : Option ℕ
  pub last_event_time : Option ℕ

-- Where the running flush waits: for `insertManyIgnoreConflict` of some rows, or for the upsert of a snapshot.
pub data Phase {ℓ} (T : Type ℓ) : Type ℓ where
  resting : Phase T
  inserting : List T → Phase T
  recording : List (String × PendingState) → Phase T

-- The events that are emitted at once.
pub data Emitted {ℓ κ} (K : Type ℓ) (T : Type κ) : Type (ℓ ⊔ κ) where
  kline_updated kline_closed : K → Emitted K T
  trade_received : T → Emitted K T

-- How `insertManyIgnoreConflict` ends. It writes one chunk after the other with no transaction, so that the first
-- rows of a batch may have been written where a later chunk fails.
pub data InsertOutcome : Type 0 where
  inserted : InsertOutcome
  failed_after : ℕ → InsertOutcome

-- The fields of `IngestService`, with what waits in its two chains and what it has emitted. `acknowledged` has the rows
-- of the insertions that have succeeded, and `stored_trades` the rows of all statements that have, those of insertions
-- that failed later included; the table ignores a row that it has.
pub record Ingest {ℓ κ} (K : Type ℓ) (T : Type κ) : Type (ℓ ⊔ κ) where
  pub buffer : TradeBuffer T
  pub health : List (String × StreamHealth)
  pub state_store : StateStore
  pub connected : Bool
  pub flush_queue : List FlushReason
  pub phase : Phase T
  pub flush_in_flight : Bool
  pub kline_queue : List K
  pub dropped_trades : ℕ
  pub parse_errors : ℕ
  pub last_flush_at : Option ℕ
  pub emitted : List (Emitted K T)
  pub stored_klines : List K
  pub acknowledged : List T
  pub stored_trades : List T

-- `health.lastEventAt ? now - … : null`, in milliseconds.
abbrev pub lag_ms : ℕ → Option ℕ → Option ℕ
lag_ms now none = none
lag_ms now (some at) = some (now - at)

pub record IngestStats : Type 0 where
  pub is_connected : Bool
  pub buffered_trades : ℕ
  pub dropped_count : ℕ
  pub parse_error_count : ℕ
  pub flushed_at : Option ℕ

module _ {ℓ κ} {K : Type ℓ} {T : Type κ} where
  abbrev pub touch : Option StreamHealth → String → ℕ → ℕ → Ingest K T → Ingest K T
  touch none key now time s = s
  touch (some health') key now time s = record s {
    health =
        map_set key (record { last_event_at = some now; last_event_time = some time }) s.health;
  }

  abbrev pub touch_health : String → ℕ → ℕ → Ingest K T → Ingest K T
  touch_health key now time s = touch (map_get key s.health) key now time s

  -- `flush`: one more link of the chain.
  abbrev pub flush : FlushReason → Ingest K T → Ingest K T
  flush reason s = record s { flush_queue = s.flush_queue ++ (reason ∷ []) }

  unfoldable pub handle_kline : String → ℕ → ℕ → K → Ingest K T → Ingest K T
  handle_kline key now time kline s =
      let s' = touch_health key now time s in
      record s' {
        state_store = mark_kline key time s'.state_store;
        kline_queue = s'.kline_queue ++ (kline ∷ []);
      }

  -- `writeAndEmitKline` for the first link of its chain; `stored` tells whether the upsert succeeded.
  abbrev pub emit_kline : Bool → K → Ingest K T → Ingest K T
  emit_kline is_closed kline s = record s {
    emitted =
        s.emitted
        ++ (kline_updated kline ∷ [])
        ++ (if is_closed then kline_closed kline ∷ [] else []);
  }

  abbrev pub write_and_emit_kline : (K → Bool) → Bool → List K → Ingest K T → Ingest K T
  write_and_emit_kline is_closed stored [] s = s
  write_and_emit_kline is_closed stored (kline ∷ queue) s =
      emit_kline (is_closed kline) kline (record s {
        kline_queue = queue;
        stored_klines = if stored then s.stored_klines ++ (kline ∷ []) else s.stored_klines;
      })

  -- What `handleTrade` does up to its test.
  abbrev pub receive : String → ℕ → ℕ → T → Ingest K T → Ingest K T
  receive key time trade_id trade s = record s {
    state_store = mark_trade key time trade_id s.state_store;
    emitted = s.emitted ++ (trade_received trade ∷ []);
    buffer = (add trade s.buffer).1;
  }

  abbrev pub flush_if : Bool → Ingest K T → Ingest K T
  flush_if true s = flush max_rows s
  flush_if false s = s

  unfoldable pub handle_trade : String → ℕ → ℕ → ℕ → T → Ingest K T → Ingest K T
  handle_trade key now time trade_id trade s =
      let s1 = touch_health key now time s in
      flush_if ((add trade s1.buffer).0 && not s1.flush_in_flight)
        (receive key time trade_id trade s1)

  abbrev pub count_parse_error : Ingest K T → Ingest K T
  count_parse_error s = record s { parse_errors = s.parse_errors + 1 }

  -- `flushState` up to its await; it waits for nothing where nothing is dirty.
  abbrev pub begin_state : List (String × PendingState) → Ingest K T → Ingest K T
  begin_state [] s = record s { phase = resting; flush_in_flight = false }
  begin_state (entry ∷ entries) s = record s { phase = recording (entry ∷ entries) }

  abbrev pub flush_state : Ingest K T → Ingest K T
  flush_state s = begin_state s.state_store.dirty s

  -- `doFlush` up to its first await.
  abbrev pub begin_insert : List T → Ingest K T → Ingest K T
  begin_insert [] s = flush_state s
  begin_insert (row ∷ rows') s = record s { phase = inserting (row ∷ rows') }

  unfoldable pub do_flush : Ingest K T → Ingest K T
  do_flush s =
      let (rows', buffer') = drain s.buffer in
      begin_insert rows' (record s { flush_in_flight = true; buffer = buffer' })

  -- The rest of `flushTrades`, by what the insertion gave, and the start of `flushState`.
  unfoldable pub insert_done : ℕ → InsertOutcome → List T → Ingest K T → Ingest K T
  insert_done now inserted rows' s = flush_state (record s {
    last_flush_at = some now;
    acknowledged = s.acknowledged ++ rows';
    stored_trades = s.stored_trades ++ rows';
  })
  insert_done now (failed_after written) rows' s =
      let (result, buffer') = restore rows' s.buffer in
      flush_state (record s {
        buffer = buffer';
        dropped_trades = s.dropped_trades + result.dropped;
        stored_trades = s.stored_trades ++ take written rows';
      })

  unfoldable pub state_done : Bool → List (String × PendingState) → Ingest K T → Ingest K T
  state_done true snapshot s = record s {
    phase = resting;
    flush_in_flight = false;
    state_store = flush_done snapshot s.state_store;
  }
  state_done false snapshot s = record s { phase = resting; flush_in_flight = false }

  abbrev pub get_ingest_stats : Ingest K T → IngestStats
  get_ingest_stats s = record {
    is_connected = s.connected;
    buffered_trades = size s.buffer;
    dropped_count = s.dropped_trades;
    parse_error_count = s.parse_errors;
    flushed_at = s.last_flush_at;
  }

  -- `getStreamHealth`, for each stream its last event and how far it lags behind `now`.
  abbrev pub get_stream_health : ℕ → Ingest K T → List (String × Option ℕ × Option ℕ)
  get_stream_health now s =
      map (λ entry. (entry.0, entry.1.last_event_at, lag_ms now entry.1.last_event_at)) s.health
