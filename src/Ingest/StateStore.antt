-- ===== src/Ingest/StateStore.antt =====
-- backend/src/ingest/ingest-state.store.ts: the newest state of each stream that the table has not yet.
-- An object of the source is told from another by its number.

use Prim.Native.String.{String}
use ariai_exam.Prelude.{
  ℕ, suc, Bool, List, [], ◌∷◌, Option, none, some, leb, ltb, ◌==◌, if◌then◌else◌, length, string_eq,
  map_get, map_set, map_delete,
}

pub record PendingState : Type 0 where
  pub object : ℕ
  pub last_event_time : Option ℕ
  pub last_trade_id : Option ℕ

pub record StateStore : Type 0 where
  pub dirty : List (String × PendingState)
  pub next_object : ℕ

-- `a !== null && a > b ? a : b`
abbrev pub later : Option ℕ → ℕ → ℕ
later none b = b
later (some a) b = if ltb b a then a else b

abbrev pub put : String → Option ℕ → Option ℕ → StateStore → StateStore
put key time trade s = record {
  dirty =
      map_set key (record { object = s.next_object; last_event_time = time; last_trade_id = trade })
        s.dirty;
  next_object = suc s.next_object;
}

abbrev pub event_time_of : Option PendingState → Option ℕ
event_time_of none = none
event_time_of (some p) = p.last_event_time

abbrev pub trade_id_of : Option PendingState → Option ℕ
trade_id_of none = none
trade_id_of (some p) = p.last_trade_id

-- `prev?.lastEventTime && eventTime <= prev.lastEventTime`
abbrev pub is_stale : Option ℕ → ℕ → Bool
is_stale none time = Bool.false
is_stale (some prev) time = leb time prev

unfoldable pub mark_kline : String → ℕ → StateStore → StateStore
mark_kline key time s =
    let prev = map_get key s.dirty in
    if is_stale (event_time_of prev) time then s else put key (some time) (trade_id_of prev) s

unfoldable pub mark_trade : String → ℕ → ℕ → StateStore → StateStore
mark_trade key time trade s =
    let prev = map_get key s.dirty in
    put key (some (later (event_time_of prev) time)) (some (later (trade_id_of prev) trade)) s

abbrev pub has_dirty : StateStore → Bool
has_dirty s = ltb 0 (length s.dirty)

-- `this.dirty.get(streamKey) === snapState`
abbrev pub is_same : Option PendingState → PendingState → Bool
is_same none p = Bool.false
is_same (some q) p = q.object == p.object

-- What `flush` does with its snapshot once the upsert has succeeded; before that it only reads.
unfoldable pub forget :
    List (String × PendingState) → List (String × PendingState) → List (String × PendingState)
forget [] dirty = dirty
forget ((key, p) ∷ snapshot) dirty =
    forget snapshot (if is_same (map_get key dirty) p then map_delete key dirty else dirty)

abbrev pub flush_done : List (String × PendingState) → StateStore → StateStore
flush_done snapshot s = record s { dirty = forget snapshot s.dirty }
