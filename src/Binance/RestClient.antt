-- ===== src/Binance/RestClient.antt =====
-- backend/src/binance/binance-rest.client.ts: one request of the REST client, with the rate limiter before each
-- attempt. `fetch` is a parameter over a world of any type; the limiter is that of RateLimiter, used by this
-- client alone meanwhile.
pub mod Attempts
mod Tests
use Prim.Native.String.{String}
use ariai_exam.Prelude.{
  ℕ, zero, suc, ◌+◌, ◌-◌, Bool, true, false, List, Option, none, some, Result, ok, err, ltb, leb,
  ◌==◌, if◌then◌else◌,
}
use ariai_exam.Binance.RateLimiter.{
  Limiter, LimiterError, acquire, sync_server_used_weight, apply_retry_after, mark_banned,
}
use ariai_exam.Binance.WsClient.{BackoffPolicy, compute_backoff_ms}

-- What `fetch` answers: the status, the headers that are read, as numbers where they are, and the body
-- that `json()` reads, which is `none` where that rejects: the text is no JSON, or the time is up before it has arrived.
pub record Response {ℓ} (J : Type ℓ) : Type ℓ where
  pub status : ℕ
  pub used_weight : Option ℕ
  pub retry_after : Option ℕ
  pub json : Option J

-- `body_error` is whatever `json()` rejects with.
pub data RestError : Type 0 where
  network_error : RestError
  body_error : RestError
  rate_limit_error : ℕ → RestError
  server_error : ℕ → RestError
  http_error : ℕ → RestError
  ip_ban_error : RestError
  refused : LimiterError → RestError
  still_waiting : RestError

-- What a call throws: the error of an attempt, or that all of them failed, with the last error.
pub data CallError : Type 0 where
  attempt_failed : RestError → CallError
  attempts_exhausted : Option RestError → CallError

abbrev pub default_retry_after_sec : ℕ
default_retry_after_sec = 5

-- The limiter, the clock and the world, and how many requests have been sent.
pub record Rest {ℓ} (W : Type ℓ) : Type ℓ where
  pub limiter : Limiter
  pub now : ℕ
  pub world : W
  pub sent : ℕ

abbrev pub is_retryable : RestError → Bool
is_retryable network_error = true
is_retryable (server_error status) = true
is_retryable (rate_limit_error sec) = true
is_retryable _ = false

-- `Number.isFinite(parsed) && parsed > 0 ? parsed : …`
abbrev pub retry_after_or_default : Option ℕ → ℕ
retry_after_or_default none = default_retry_after_sec
retry_after_or_default (some sec) = if ltb 0 sec then sec else default_retry_after_sec

-- A 429 needs no wait beside the pause of the limiter.
abbrev pub wait_ms : RestError → ℕ → BackoffPolicy → ℕ → ℕ
wait_ms (rate_limit_error sec) attempt backoff random = 0
wait_ms _ attempt backoff random = compute_backoff_ms attempt backoff random

abbrev pub is_ok {ℓ} : {J : Type ℓ} → Response J → Bool
is_ok res = if leb 200 res.status then ltb res.status 300 else false

module _ {ℓ κ} {W : Type ℓ} {J : Type κ} where
  abbrev pub apply_weight_header : Response J → Rest W → Rest W
  apply_weight_header res s = record s {
    limiter = sync_server_used_weight res.used_weight s.now s.limiter;
  }

  abbrev pub raise_http_error : Response J → Rest W → Result RestError J × Rest W
  raise_http_error res s =
      let sec = retry_after_or_default res.retry_after in
      if res.status == 429
      then (
        err (rate_limit_error sec),
        record s { limiter = apply_retry_after (some sec) s.now s.limiter },
      )
      else if res.status == 418
      then (err ip_ban_error, record s { limiter = mark_banned "HTTP 418" s.limiter })
      else if leb 500 res.status
      then (err (server_error res.status), s)
      else (err (http_error res.status), s)

  -- `await res.json()`, outside of the `try` that makes network errors of what `fetch` rejects with.
  abbrev pub read_body : Option J → Rest W → Result RestError J × Rest W
  read_body none s = (err body_error, s)
  read_body (some json) s = (ok json, s)

  abbrev pub answered : Option (Response J) → Rest W → Result RestError J × Rest W
  answered none s = (err network_error, s)
  answered (some res) s =
      let s' = apply_weight_header res s in
      if is_ok res then read_body res.json s' else raise_http_error res s'

module _ {ℓ κ} {W : Type ℓ} {J : Type κ} (fetch : W → Option (Response J) × W) (fuel : ℕ)
    (late : ℕ → ℕ) (backoff : BackoffPolicy) (random max_attempts weight : ℕ) where
  unfoldable pub fetch_once : Rest W → Result RestError J × Rest W
  fetch_once s =
      answered (fetch s.world).0 (record s { world = (fetch s.world).1; sent = s.sent + 1 })

  -- An attempt that the limiter has let through, or not.
  abbrev pub granted :
      Option (Result LimiterError (ℕ × Limiter)) → Rest W → Result RestError J × Rest W
  granted none s = (err still_waiting, s)
  granted (some (err e)) s = (err (refused e), s)
  granted (some (ok (now', limiter'))) s = fetch_once (record s { now = now'; limiter = limiter' })

  -- What follows an attempt: its value, an error that is not retried, or a wait and the next attempt.
  abbrev pub settle :
      (Option RestError → Rest W → Result CallError J × Rest W)
      → ℕ
      → Bool
      → Result RestError J × Rest W
      → Result CallError J × Rest W
  settle next attempt is_last (ok json, s) = (ok json, s)
  settle next attempt is_last (err e, s) =
      if is_retryable e
      then next (some e)
          (record s { now = s.now + (if is_last then 0 else wait_ms e attempt backoff random) })
      else (err (attempt_failed e), s)

  -- The `for` loop, with `left` attempts to go.
  unfoldable pub request_loop : ℕ → ℕ → Option RestError → Rest W → Result CallError J × Rest W
  request_loop zero attempt last_error s = (err (attempts_exhausted last_error), s)
  request_loop (suc left) attempt last_error s =
      settle (request_loop left (attempt + 1)) attempt (left == 0)
        (granted (acquire fuel late weight s.now s.limiter) s)

  unfoldable pub request_json : Rest W → Result CallError J × Rest W
  request_json s = request_loop max_attempts 1 none s
