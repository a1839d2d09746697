-- ===== src/Lib.antt =====
-- A collector of candles and trades from Binance and its dashboard.
--
-- The backend receives the live stream over a WebSocket, finds the candles that its table lacks, fetches them
-- page by page over REST under a budget of request weight, and writes them in batches; the dashboard follows
-- the backend over server-sent events. An interruption of the WebSocket becomes a gap that the backfill repairs.
--
-- The modules, and the files that they follow:
--   Config                  backend/src/config/configuration.ts: symbols, intervals, the length of a candle
--   Backfill.GapMath        backend/src/backfill/gap-math.ts, gap-detector.ts, and TimeRange of backfill.types.ts
--   Backfill.Paginator      backend/src/backfill/rest-paginator.ts (paginateKlines, computeMaxPages)
--   Backfill.StartupPlan    backend/src/backfill/startup-plan.ts (resolveStartupPlan)
--   Backfill.Service        backend/src/backfill/backfill.service.ts: the ranges in flight, the flag of the engine
--   Backfill.Requests       backend/src/backfill/backfill.service.ts: the windows asked for, and their jobs
--   Backfill.Runner         backend/src/backfill/backfill-runner.ts (BackfillRunner), progress-emitter.ts
--   Backfill.KlineMapper    backend/src/backfill/kline-mapper.ts
--   Backfill.Concurrency    backend/src/backfill/async-util.ts (runWithConcurrency)
--   Binance.Klines          backend/src/binance/binance-rest.schemas.ts: candles, and the weight of a request
--   Db.JobRepository        backend/src/db/repositories/backfill-job.repository.ts: the transitions of a job
--   Binance.RateLimiter     backend/src/binance/rate-limiter.ts (BinanceRateLimiter)
--   Binance.WsClient        backend/src/binance/binance-ws.client.ts (BinanceWsClient), backoff.ts
--   Binance.RestClient      backend/src/binance/binance-rest.client.ts: requestJson, fetchOnce and their errors
--   Db.Chunk, Db.Dedupe     backend/src/db/chunk.ts, dedupe.ts
--   Db.KlineRules           backend/src/db/kline-rules.ts: the gate in front of the table of candles, and which of two is kept
--   Db.Schema               backend/src/db/schema.ts: the rows of the table of candles
--   Db.KlineRepository      backend/src/db/repositories/kline.repository.ts: upsertMany
--   Decimal.Scaled          backend/src/ingest/decimal.util.ts (mulDecimal)
--   Decimal.Numeric         backend/src/db/numeric.ts (compareNumericStrings)
--   Ingest.TradeBuffer      backend/src/ingest/trade-buffer.ts (TradeBuffer)
--   Ingest.StateStore       backend/src/ingest/ingest-state.store.ts (IngestStateStore)
--   Ingest.Service          backend/src/ingest/ingest.service.ts: messages, chains and flushes of IngestService
--   Ingest.StreamKeys       backend/src/ingest/stream-message.parser.ts, api/ops/stream-health.util.ts,
--                           backfill/stream-status.util.ts: the keys of the streams
--   Metrics.Cache           backend/src/metrics/metrics-cache.service.ts (MetricsCacheService)
--   Api.Coverage            backend/src/api/ops/coverage.util.ts
--   Frontend.OpsThresholds  frontend/src/lib/ops-thresholds.ts (summarizeHealth, coverageTone, lagTone)
--   Frontend.EventStream    frontend/src/lib/stream/event-stream-client.ts (EventStreamClient)
--   Prelude                 shared names, lists, maps of JavaScript in insertion order, results, effects
--
-- Functions keep their names, in snake case. A class is a record of its fields with a function for each method,
-- from the fields before to those after; what the code throws is a value of a Result. Where objects are compared
-- by identity, they carry a number. An asynchronous method is cut at its awaits where others
-- may run in between: acquire of the rate limiter is a sequence of rounds, which a history interleaves with other calls. The clock is an argument of each call. The two clients of streams are
-- state machines: their records hold, beside the fields, what Node or the browser holds for them (timers, frame
-- requests, connections, by handle), and a history is any sequence of calls, timers that fire and events that
-- arrive. Sockets that BinanceWsClient has let go of are kept apart from the one that it names, since their events come
-- to the same listeners. What an environment has seen (pages asked for, rows written, computations started, results that
-- workers returned) is logged beside the fields where a theorem speaks of it.
--
-- Numbers are natural. Times are milliseconds since the epoch, which the code keeps as finite integers of at
-- least 0, far below 2^53, so that addition and floor division of JavaScript are exact on them. Where the code
-- takes Math.max(0, a - b), the subtraction of the natural numbers, which stops at 0, says the same; a window
-- that looks back further than the epoch starts at 0 here and before it in the code. Random
-- draws and ratios of the backoff are fractions of a million and of a thousand. A lag of the dashboard is in milliseconds, since its seconds may
-- have a fraction. A ratio of coverage is in ten-thousandths, to which
-- the code rounds it; that a floating-point quotient may fall on the other side of a tie is not seen. Texts whose
-- characters matter are lists of code points, and a BigInt is an integer.
--
-- The loop of paginateKlines recurses on one round more than maxPages, and it is shown that its own count of
-- the pages stops it before, so that more fuel changes nothing. The grid of
-- expected open times recurses on the end of the window, which is enough since each round moves up by at least
-- one. acquire recurses on a number of rounds, and a theorem gives a number that is enough. The attempts of a job recurse on
-- what is left of the three. The digits of a number recurse on one more than the number, of which each round takes a digit.
--
-- How the parts meet: BackfillRunner pages through the exchange with paginateKlines, maps the candles that have closed
-- to rows, and hands them to upsertMany, which passes them through the gate of kline-rules.ts, dedupeBy and chunkRows; the
-- database behind it is a record of statements with the law that a statement that fits does what it asks for. The jobs run
-- on the lanes of runWithConcurrency. The coverage that the backend reports is read by the tones of the dashboard.
--
-- An insertion of trades may have written its first rows where it fails, since its chunks share no transaction. Of the
-- socket library it is assumed that a socket opens at most once, closes once, and does not open after close or terminate.
-- The jobs of the backfill are all of the base interval, the one that createJobs gives.
--
-- The repositories, the exchange, the socket library, JSON.parse and the zod schemas are parameters. Not
-- modelled: logging and texts for people, SQL, the controllers and data transfer objects of the HTTP API, the
-- wiring of the framework, and the rendering of the dashboard.
pub mod Prelude
pub mod Config
pub mod Backfill
pub mod Binance
pub mod Db
pub mod Frontend
pub mod Ingest
pub mod Decimal
pub mod Metrics
pub mod Api
