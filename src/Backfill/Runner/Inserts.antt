-- ===== src/Backfill/Runner/Inserts.antt =====
-- The rows of a page pass the gate of the table of candles.
use ariai_exam.Prelude.{
  ℕ, ◌+◌, ◌<◌, ◌≤◌, ◌≡◌, refl, arith, Bool, true, false, List, [], ◌∷◌, some, Result, ok, err, All,
  Bool-cases, inl, inr, ◌%◌, ◌==◌, ==_iff, text_eq, filter, if◌then◌else◌, ◌>>=◌, ◌≢◌, ◌⊎◌, not,
}
use ariai_exam.Config.{Symbol, btcusdt, ethusdt, symbol_name, interval_name, m1, base_interval_ms}
use ariai_exam.Binance.Klines.{BinanceKline, KlineError, open_time_not_aligned}
use ariai_exam.Db.Schema.{KlineInsert}
use ariai_exam.Db.KlineRules.{interval_to_ms}
use ariai_exam.Db.KlineRules.Laws.{Valid}
use ariai_exam.Backfill.KlineMapper.{insert_of, to_kline_insert, is_closed_candle}
use ariai_exam.Backfill.Requests.{JobSpec}
use ariai_exam.Backfill.Runner.{map_all, page_inserts}

-- A candle ends after it has begun.
abbrev pub EndsLater : BinanceKline → Type 0
EndsLater kline = kline.open_time < kline.close_time

-- A row that the table takes, of a candle that was over at that time.
abbrev pub Storable : ℕ → KlineInsert → Type 0
Storable now_ms row =
    Valid row × (ms : ℕ) × (row.open_time ≡ some ms) × (ms + base_interval_ms ≤ now_ms)

-- What is thrown is thrown for a candle off the grid.
abbrev pub Throws : List BinanceKline → Type 0
Throws [] = ⊥
Throws (kline ∷ klines) = (kline.open_time % base_interval_ms ≢ 0) ⊎ Throws klines

symbol_name_lem : (s : Symbol) → text_eq (symbol_name s) [] ≡ false
symbol_name_lem btcusdt = refl
symbol_name_lem ethusdt = refl

abbrev pub Verdict : ℕ → List BinanceKline → Result KlineError (List KlineInsert) → Type 0
Verdict now_ms klines (ok rows) = All (Storable now_ms) rows
Verdict now_ms klines (err e) = Throws klines

module _ (job : JobSpec) (now_ms : ℕ) where
  abbrev mapped : BinanceKline → Result KlineError KlineInsert
  mapped kline = to_kline_insert (symbol_name job.symbol) (interval_name m1) kline base_interval_ms

  insert_of-Storable :
      (kline : BinanceKline)
      → EndsLater kline
      → kline.open_time % base_interval_ms ≡ 0
      → is_closed_candle kline base_interval_ms now_ms ≡ true
      → Storable now_ms (insert_of (symbol_name job.symbol) (interval_name m1) kline)
  unfolding interval_to_ms
  insert_of-Storable kline later aligned closed =
      ((symbol_name_lem job.symbol, (aligned, later)), kline.open_time, refl, ground arith)

  -- One candle more that has closed.
  one_more :
      (kline : BinanceKline) (klines : List BinanceKline) (aligned : Bool)
      (others : Result KlineError (List KlineInsert))
      → EndsLater kline
      → ((kline.open_time % base_interval_ms) == 0) ≡ aligned
      → is_closed_candle kline base_interval_ms now_ms ≡ true
      → Verdict now_ms klines others
      → Verdict now_ms (kline ∷ klines) (
          (if not aligned
            then err (open_time_not_aligned kline.open_time)
            else ok (insert_of (symbol_name job.symbol) (interval_name m1) kline))
          >>= λ row. others >>= λ rows. ok (row ∷ rows))
  one_more kline klines false others later off closed v = inl (ground (arith, off))
  one_more kline klines true (err e) later on closed v = inr v
  one_more kline klines true (ok rows) later on closed v = (
    insert_of-Storable kline later ((==_iff (kline.open_time % base_interval_ms) 0).0 on) closed,
    v,
  )

  map_all-Storable :
      (klines : List BinanceKline)
      → All EndsLater klines
      → Verdict now_ms klines
          (map_all mapped (filter (λ kline. is_closed_candle kline base_interval_ms now_ms) klines))
  unfolding to_kline_insert
  map_all-Storable [] h = tt
  map_all-Storable (kline ∷ klines) h =
      let others =
        map_all mapped (filter (λ k. is_closed_candle k base_interval_ms now_ms) klines) in
      let v = map_all-Storable klines h.1 in
      elim (Bool-cases (is_closed_candle kline base_interval_ms now_ms)) [
        | inl closed ↦ rw closed (one_more kline klines _ others h.0 refl closed v)
        | inr open' ↦ rw open' (skip others v)
      ]
    where
      skip :
          (others : Result KlineError (List KlineInsert))
          → Verdict now_ms klines others
          → Verdict now_ms (kline ∷ klines) others
      skip (ok rows) v = v
      skip (err e) v = inr v

  -- Of a page whose candles end after they begin: what is stored passes the gate of the table and was over at that
  -- time, and where an error is thrown, a candle of the page is off the grid.
  pub page_inserts-Storable :
      (klines : List BinanceKline)
      → All EndsLater klines
      → Verdict now_ms klines (page_inserts job now_ms klines)
  unfolding page_inserts
  page_inserts-Storable klines h = map_all-Storable klines h
