-- ===== src/Ingest/Service/Conservation.antt =====
-- No trade is lost in silence: what has arrived is stored, in flight, buffered, or counted as dropped.
use Prim.Native.String.{String}
use ariai_exam.Prelude.{
  ℕ, ◌+◌, ◌-◌, ◌≡◌, refl, sym, ap, ◌∙◌, arith, Bool, ◌&&◌, not, true, false, List, [], ◌∷◌, ◌++◌,
  append_assoc, append-nil, Option, none, some, ltb, if◌then◌else◌, if_split, length, length-take,
  take, drop, take-append-drop, string_eq, map_get,
}
use mathlib.Core.Path.{subst}
use ariai_exam.Prelude.Occurs.{In, In-left, In-both}
use ariai_exam.Ingest.TradeBuffer.{add}
use ariai_exam.Ingest.StateStore.{PendingState}
use ariai_exam.Ingest.Service.{
  FlushReason, StreamHealth, Phase, resting, inserting, recording, Ingest, InsertOutcome, inserted,
  failed_after, touch, touch_health, flush, handle_kline, write_and_emit_kline, handle_trade,
  receive, flush_if, count_parse_error, begin_state, begin_insert, do_flush, insert_done,
  state_done,
}

pub data IngestEvent {ℓ κ} (K : Type ℓ) (T : Type κ) : Type (ℓ ⊔ κ) where
  kline_arrives : String → ℕ → ℕ → K → IngestEvent K T
  trade_arrives : String → ℕ → ℕ → ℕ → T → IngestEvent K T
  unreadable : IngestEvent K T
  kline_written : Bool → IngestEvent K T
  flush_asked : FlushReason → IngestEvent K T
  flush_starts : IngestEvent K T
  insert_ends : ℕ → InsertOutcome → IngestEvent K T
  state_ends : Bool → IngestEvent K T

module _ {κ} {T : Type κ} where
  -- Rows whose fate is settled, each with whether its insertion succeeded or it was dropped, in the order of their arrival.
  abbrev pub settled_rows : List (Bool × T) → List T
  settled_rows [] = []
  settled_rows ((b, t) ∷ settled) = t ∷ settled_rows settled

  abbrev pub kept : List (Bool × T) → List T
  kept [] = []
  kept ((true, t) ∷ settled) = t ∷ kept settled
  kept ((false, t) ∷ settled) = kept settled

  abbrev pub lost : List (Bool × T) → ℕ
  lost [] = 0
  lost ((true, t) ∷ settled) = lost settled
  lost ((false, t) ∷ settled) = lost settled + 1

  abbrev pub in_flight : Phase T → List T
  in_flight (inserting rows) = rows
  in_flight resting = []
  in_flight (recording snapshot) = []

  tag : Bool → List T → List (Bool × T)
  tag b [] = []
  tag b (row ∷ rows) = (b, row) ∷ tag b rows

  settled_rows-tag :
      (b : Bool) (settled : List (Bool × T)) (rows : List T)
      → settled_rows (settled ++ tag b rows) ≡ settled_rows settled ++ rows
  unfolding tag
  settled_rows-tag b [] [] = refl
  settled_rows-tag b [] (row ∷ rows) = ap (◌∷◌ row) (settled_rows-tag b [] rows)
  settled_rows-tag b ((c, t) ∷ settled) rows = ap (◌∷◌ t) (settled_rows-tag b settled rows)

  kept-stored :
      (settled : List (Bool × T)) (rows : List T)
      → kept (settled ++ tag true rows) ≡ kept settled ++ rows
  unfolding tag
  kept-stored [] [] = refl
  kept-stored [] (row ∷ rows) = ap (◌∷◌ row) (kept-stored [] rows)
  kept-stored ((true, t) ∷ settled) rows = ap (◌∷◌ t) (kept-stored settled rows)
  kept-stored ((false, t) ∷ settled) rows = kept-stored settled rows

  kept-dropped :
      (settled : List (Bool × T)) (rows : List T) → kept (settled ++ tag false rows) ≡ kept settled
  unfolding tag
  kept-dropped [] [] = refl
  kept-dropped [] (row ∷ rows) = kept-dropped [] rows
  kept-dropped ((true, t) ∷ settled) rows = ap (◌∷◌ t) (kept-dropped settled rows)
  kept-dropped ((false, t) ∷ settled) rows = kept-dropped settled rows

  lost-stored :
      (settled : List (Bool × T)) (rows : List T) → lost (settled ++ tag true rows) ≡ lost settled
  unfolding tag
  lost-stored [] [] = refl
  lost-stored [] (row ∷ rows) = lost-stored [] rows
  lost-stored ((true, t) ∷ settled) rows = lost-stored settled rows
  lost-stored ((false, t) ∷ settled) rows = ap (λ n. n + 1) (lost-stored settled rows)

  lost-dropped :
      (settled : List (Bool × T)) (rows : List T)
      → lost (settled ++ tag false rows) ≡ lost settled + length rows
  unfolding tag
  lost-dropped [] [] = refl
  lost-dropped [] (row ∷ rows) = omega (arith, lost-dropped [] rows)
  lost-dropped ((true, t) ∷ settled) rows = lost-dropped settled rows
  lost-dropped ((false, t) ∷ settled) rows = omega (arith, lost-dropped settled rows)

  -- What `restore` drops stood in front of what it keeps.
  take-keep :
      (n : ℕ) (rows : List T) → take n rows ++ (if ltb 0 n then drop n rows else rows) ≡ rows
  take-keep n rows =
      if_split (λ (kept_rows : List T). take n rows ++ kept_rows ≡ rows) (ltb 0 n)
        (λ _. take-append-drop n rows)
        (λ none_lost. ap (λ k. take k rows ++ rows) (zero_of n none_lost))
    where
      zero_of : (n : ℕ) → ltb 0 n ≡ false → n ≡ 0
      zero_of n h = ground (arith, h)

module _ {ℓ κ} {K : Type ℓ} {T : Type κ} where
  -- The chain starts its next flush when the last one is over.
  abbrev pub start_flush : Phase T → List FlushReason → Ingest K T → Ingest K T
  start_flush resting (reason ∷ queue) s = do_flush (record s { flush_queue = queue })
  start_flush phase queue s = s

  abbrev pub end_insert : Phase T → ℕ → InsertOutcome → Ingest K T → Ingest K T
  end_insert (inserting rows) now outcome s = insert_done now outcome rows s
  end_insert phase now outcome s = s

  abbrev pub end_state : Phase T → Bool → Ingest K T → Ingest K T
  end_state (recording snapshot) stored s = state_done stored snapshot s
  end_state phase stored s = s

  abbrev pub arrivals : List (IngestEvent K T) → List T
  arrivals [] = []
  arrivals (trade_arrives key now time id trade ∷ history) = trade ∷ arrivals history
  arrivals (_ ∷ history) = arrivals history

  -- The rows that arrived are those settled, then those in flight, then those buffered, in this order; the
  -- acknowledged ones have been stored, and the dropped ones are counted.
  abbrev pub Accounted : List T → Ingest K T → Type κ
  Accounted received s =
      (settled : List (Bool × T)) × (settled_rows settled ++ (in_flight s.phase ++ s.buffer.rows)
        ≡ received)
      × (kept settled ≡ s.acknowledged)
      × (lost settled ≡ s.dropped_trades)
      × ((t : T) → In t s.acknowledged → In t s.stored_trades)

  touch-Accounted :
      (h : Option StreamHealth) (key : String) (now time : ℕ) (received : List T) (s : Ingest K T)
      → Accounted received s
      → Accounted received (touch h key now time s)
  touch-Accounted none key now time received s a = a
  touch-Accounted (some h) key now time received s a = a

  -- A flush moves on from a phase in which nothing is in flight.
  begin_state-Accounted :
      (entries : List (String × PendingState)) (received : List T) (s : Ingest K T)
      → Accounted received (record s { phase = resting })
      → Accounted received (begin_state entries s)
  begin_state-Accounted [] received s a = a
  begin_state-Accounted (entry ∷ entries) received s a = a

  begin_insert-Accounted :
      (rows : List T) (received : List T) (s : Ingest K T)
      → Accounted received (record s { phase = inserting rows })
      → Accounted received (begin_insert rows s)
  begin_insert-Accounted [] received s a = begin_state-Accounted s.state_store.dirty received s a
  begin_insert-Accounted (row ∷ rows) received s a = a

  do_flush-Accounted :
      (received : List T) (s : Ingest K T)
      → s.phase ≡ resting
      → Accounted received s
      → Accounted received (do_flush s)
  unfolding do_flush
  do_flush-Accounted received s e (settled, a, k, l, m) =
      begin_insert-Accounted s.buffer.rows received _ (
        settled,
        ap (λ rows. settled_rows settled ++ rows) (append-nil s.buffer.rows)
            ∙ ap (λ phase. settled_rows settled ++ (in_flight phase ++ s.buffer.rows)) (sym e)
            ∙ a,
        k,
        l,
        m,
      )

  insert_done-Accounted :
      (now : ℕ) (outcome : InsertOutcome) (rows received : List T) (s : Ingest K T)
      → s.phase ≡ inserting rows
      → Accounted received s
      → Accounted received (insert_done now outcome rows s)
  unfolding insert_done
  insert_done-Accounted now inserted rows received s e (settled, a, k, l, m) =
      begin_state-Accounted s.state_store.dirty received _ (
        settled ++ tag true rows,
        ap (λ front. front ++ s.buffer.rows) (settled_rows-tag true settled rows)
            ∙ append_assoc (settled_rows settled) rows s.buffer.rows
            ∙ ap (λ phase. settled_rows settled ++ (in_flight phase ++ s.buffer.rows)) (sym e)
            ∙ a,
        kept-stored settled rows ∙ ap (λ front. front ++ rows) k,
        lost-stored settled rows ∙ l,
        λ t. In-both t s.acknowledged s.stored_trades rows (m t),
      )
  insert_done-Accounted now (failed_after written) rows received s e (settled, a, k, l, m) =
      let combined = rows ++ s.buffer.rows in
      let n = length combined - s.buffer.hard_cap in
      let gone = take n combined in
      let rest = if ltb 0 n then drop n combined else combined in
      begin_state-Accounted s.state_store.dirty received _ (
        settled ++ tag false gone,
        ap (λ front. front ++ rest) (settled_rows-tag false settled gone)
            ∙ append_assoc (settled_rows settled) gone rest
            ∙ ap (λ back. settled_rows settled ++ back) (take-keep n combined)
            ∙ ap (λ phase. settled_rows settled ++ (in_flight phase ++ s.buffer.rows)) (sym e)
            ∙ a,
        kept-dropped settled gone ∙ k,
        omega (arith, lost-dropped settled gone, length-take n combined, l),
        λ t h. In-left t s.stored_trades (take written rows) (m t h),
      )

  state_done-Accounted :
      (stored : Bool) (snapshot : List (String × PendingState)) (received : List T) (s : Ingest K T)
      → s.phase ≡ recording snapshot
      → Accounted received s
      → Accounted received (state_done stored snapshot s)
  unfolding state_done
  state_done-Accounted true snapshot received s e (settled, a, k, l, m) = (
    settled,
    ap (λ phase. settled_rows settled ++ (in_flight phase ++ s.buffer.rows)) (sym e) ∙ a,
    k,
    l,
    m,
  )
  state_done-Accounted false snapshot received s e (settled, a, k, l, m) = (
    settled,
    ap (λ phase. settled_rows settled ++ (in_flight phase ++ s.buffer.rows)) (sym e) ∙ a,
    k,
    l,
    m,
  )

  start_flush-Accounted :
      (phase : Phase T) (queue : List FlushReason) (received : List T) (s : Ingest K T)
      → s.phase ≡ phase
      → Accounted received s
      → Accounted received (start_flush phase queue s)
  start_flush-Accounted resting (reason ∷ queue) received s e a =
      do_flush-Accounted received (record s { flush_queue = queue }) e a
  start_flush-Accounted resting [] received s e a = a
  start_flush-Accounted (inserting rows) queue received s e a = a
  start_flush-Accounted (recording snapshot) queue received s e a = a

  end_insert-Accounted :
      (phase : Phase T) (now : ℕ) (outcome : InsertOutcome) (received : List T) (s : Ingest K T)
      → s.phase ≡ phase
      → Accounted received s
      → Accounted received (end_insert phase now outcome s)
  end_insert-Accounted (inserting rows) now outcome received s e a =
      insert_done-Accounted now outcome rows received s e a
  end_insert-Accounted resting now outcome received s e a = a
  end_insert-Accounted (recording snapshot) now outcome received s e a = a

  end_state-Accounted :
      (phase : Phase T) (stored : Bool) (received : List T) (s : Ingest K T)
      → s.phase ≡ phase
      → Accounted received s
      → Accounted received (end_state phase stored s)
  end_state-Accounted (recording snapshot) stored received s e a =
      state_done-Accounted stored snapshot received s e a
  end_state-Accounted resting stored received s e a = a
  end_state-Accounted (inserting rows) stored received s e a = a

  handle_kline-Accounted :
      (key : String) (now time : ℕ) (kline : K) (received : List T) (s : Ingest K T)
      → Accounted received s
      → Accounted received (handle_kline key now time kline s)
  unfolding handle_kline
  handle_kline-Accounted key now time kline received s a =
      touch-Accounted (map_get key s.health) key now time received s a

  receive-Accounted :
      (key : String) (time id : ℕ) (trade : T) (received : List T) (s : Ingest K T)
      → Accounted received s
      → Accounted (received ++ (trade ∷ [])) (receive key time id trade s)
  receive-Accounted key time id trade received s (settled, e, k, l, m) = (
    settled,
    ap (λ back. settled_rows settled ++ back)
          (sym (append_assoc (in_flight s.phase) s.buffer.rows (trade ∷ [])))
        ∙ (sym (
              append_assoc (settled_rows settled) (in_flight s.phase ++ s.buffer.rows) (trade ∷ []))
            ∙ ap (λ front. front ++ (trade ∷ [])) e),
    k,
    l,
    m,
  )

  flush_if-Accounted :
      (asked : Bool) (received : List T) (s : Ingest K T)
      → Accounted received s
      → Accounted received (flush_if asked s)
  flush_if-Accounted true received s a = a
  flush_if-Accounted false received s a = a

  handle_trade-Accounted :
      (key : String) (now time id : ℕ) (trade : T) (received : List T) (s : Ingest K T)
      → Accounted received s
      → Accounted (received ++ (trade ∷ [])) (handle_trade key now time id trade s)
  unfolding handle_trade
  handle_trade-Accounted key now time id trade received s a =
      let s1 = touch_health key now time s in
      flush_if-Accounted ((add trade s1.buffer).0 && not s1.flush_in_flight)
        (received ++ (trade ∷ [])) (receive key time id trade s1)
        (receive-Accounted key time id trade received s1
          (touch-Accounted (map_get key s.health) key now time received s a))

  write-Accounted :
      (is_closed : K → Bool) (stored : Bool) (queue : List K) (received : List T) (s : Ingest K T)
      → Accounted received s
      → Accounted received (write_and_emit_kline is_closed stored queue s)
  write-Accounted is_closed stored [] received s a = a
  write-Accounted is_closed stored (kline ∷ queue) received s a = a

module _ {ℓ κ} {K : Type ℓ} {T : Type κ} (is_closed : K → Bool) where
  unfoldable pub step : IngestEvent K T → Ingest K T → Ingest K T
  step (kline_arrives key now time kline) s = handle_kline key now time kline s
  step (trade_arrives key now time id trade) s = handle_trade key now time id trade s
  step unreadable s = count_parse_error s
  step (kline_written stored) s = write_and_emit_kline is_closed stored s.kline_queue s
  step (flush_asked reason) s = flush reason s
  step flush_starts s = start_flush s.phase s.flush_queue s
  step (insert_ends now outcome) s = end_insert s.phase now outcome s
  step (state_ends stored) s = end_state s.phase stored s

  unfoldable pub run : List (IngestEvent K T) → Ingest K T → Ingest K T
  run [] s = s
  run (event ∷ history) s = run history (step event s)

  run-Accounted :
      (history : List (IngestEvent K T)) (received : List T) (s : Ingest K T)
      → Accounted received s
      → Accounted (received ++ arrivals history) (run history s)
  unfolding run step
  run-Accounted [] received s a = subst (λ rows. Accounted rows s) (sym (append-nil received)) a
  run-Accounted (kline_arrives key now time kline ∷ history) received s a =
      run-Accounted history received _ (handle_kline-Accounted key now time kline received s a)
  run-Accounted (trade_arrives key now time id trade ∷ history) received s a =
      subst (λ rows. Accounted rows (run history (handle_trade key now time id trade s)))
        (append_assoc received (trade ∷ []) (arrivals history))
        (run-Accounted history (received ++ (trade ∷ [])) (handle_trade key now time id trade s)
          (handle_trade-Accounted key now time id trade received s a))
  run-Accounted (unreadable ∷ history) received s a = run-Accounted history received _ a
  run-Accounted (kline_written stored ∷ history) received s a =
      run-Accounted history received _ (write-Accounted is_closed stored s.kline_queue received s a)
  run-Accounted (flush_asked reason ∷ history) received s a = run-Accounted history received _ a
  run-Accounted (flush_starts ∷ history) received s a =
      run-Accounted history received _
        (start_flush-Accounted s.phase s.flush_queue received s refl a)
  run-Accounted (insert_ends now outcome ∷ history) received s a =
      run-Accounted history received _ (end_insert-Accounted s.phase now outcome received s refl a)
  run-Accounted (state_ends stored ∷ history) received s a =
      run-Accounted history received _ (end_state-Accounted s.phase stored received s refl a)

  -- From a service with an empty buffer, nothing in flight, nothing acknowledged, and nothing dropped, after any
  -- history of messages, flushes and failures of the database, in which a failed insertion may have written the first
  -- of its rows: the trades that have arrived are, in this order and each once, those whose insertion has succeeded or
  -- that were dropped, those in flight, and those in the buffer; `droppedTrades` counts those dropped; and those whose
  -- insertion has succeeded have been stored. Of the others, which a failed insertion had, some may be stored as well.
  pub trades_add_up :
      (s : Ingest K T) (history : List (IngestEvent K T))
      → s.phase ≡ resting
      → s.buffer.rows ≡ []
      → s.acknowledged ≡ []
      → s.dropped_trades ≡ 0
      → Accounted (arrivals history) (run history s)
  trades_add_up s history e b k l = run-Accounted history [] s (
    [],
    ap (λ phase. in_flight phase ++ s.buffer.rows) e ∙ b,
    sym k,
    sym l,
    λ t h. absurd (subst (In t) k h tt),
  )
