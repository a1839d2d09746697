-- ===== src/Binance/RestClient/Attempts.antt =====
-- How many requests are sent for one call, and when a call gives up.
use ariai_exam.Prelude.{
  ℕ, zero, suc, ◌+◌, ◌≤◌, ◌≡◌, ◌⊎◌, inl, inr, refl, arith, Bool, Option, none, some, Result, ok,
  err, leb, ◌==◌, if◌then◌else◌, if_split,
}
use ariai_exam.Binance.RateLimiter.{Limiter, LimiterError, acquire}
use ariai_exam.Binance.WsClient.{BackoffPolicy}
use ariai_exam.Binance.RestClient.{
  Response, RestError, CallError, attempt_failed, attempts_exhausted, is_retryable, Rest, wait_ms,
  raise_http_error, apply_weight_header, is_ok, read_body, answered, fetch_once, granted, settle,
  request_loop, request_json,
}

module _ {ℓ κ} {W : Type ℓ} {J : Type κ} where
  -- At most `most` requests more than `before`, and exactly as many where the call gives up.
  abbrev pub Sent : ℕ → ℕ → Result CallError J × Rest W → Type 0
  Sent before most (err (attempts_exhausted e), s) = s.sent ≡ before + most
  Sent before most (err (attempt_failed e), s) =
      (s.sent ≤ before + most) × (is_retryable e ≡ Bool.false)
  Sent before most (ok json, s) = s.sent ≤ before + most

  -- One request at most, and one where another attempt may follow.
  abbrev One : ℕ → Result RestError J × Rest W → Type 0
  One before (err e, s) =
      (s.sent ≤ before + 1) × ((is_retryable e ≡ Bool.false) ⊎ (s.sent ≡ before + 1))
  One before (ok json, s) = s.sent ≤ before + 1

  raise_http_error-One :
      (before : ℕ) (res : Response J) (s : Rest W)
      → s.sent ≡ before + 1
      → One before (raise_http_error res s)
  raise_http_error-One before res s e =
      if_split (One before) (res.status == 429) (λ _. (omega (arith, e), inr e))
        (λ _.
          if_split (One before) (res.status == 418) (λ _. (omega (arith, e), inr e))
            (λ _.
              if_split (One before) (leb 500 res.status) (λ _. (omega (arith, e), inr e))
                (λ _. (omega (arith, e), inr e))))

  read_body-One :
      (before : ℕ) (json : Option J) (s : Rest W)
      → s.sent ≡ before + 1
      → One before (read_body json s)
  read_body-One before none s e = (omega (arith, e), inl refl)
  read_body-One before (some json) s e = omega (arith, e)

  answered-One :
      (before : ℕ) (res : Option (Response J)) (s : Rest W)
      → s.sent ≡ before + 1
      → One before (answered res s)
  answered-One before none s e = (omega (arith, e), inr e)
  answered-One before (some res) s e =
      if_split (One before) (is_ok res)
        (λ _. read_body-One before res.json (apply_weight_header res s) e)
        (λ _. raise_http_error-One before res (apply_weight_header res s) e)

module _ {ℓ κ} {W : Type ℓ} {J : Type κ} (fetch : W → Option (Response J) × W) (fuel : ℕ)
    (late : ℕ → ℕ) (backoff : BackoffPolicy) (random max_attempts weight : ℕ) where
  granted-One :
      (grant : Option (Result LimiterError (ℕ × Limiter))) (s : Rest W)
      → One s.sent (granted fetch fuel late backoff random max_attempts weight grant s)
  unfolding fetch_once
  granted-One none s = (omega arith, inl refl)
  granted-One (some (err e)) s = (omega arith, inl refl)
  granted-One (some (ok (now', limiter'))) s = answered-One s.sent (fetch s.world).0 _ refl

  Sent-later :
      (before most : ℕ) (s : Rest W) (o : Result CallError J × Rest W)
      → s.sent ≡ before + 1
      → Sent s.sent most o
      → Sent before (suc most) o
  Sent-later before most s (err (attempts_exhausted e), s') k h = omega (arith, k, h)
  Sent-later before most s (err (attempt_failed e), s') k (h, f) = (omega (arith, k, h), f)
  Sent-later before most s (ok json, s') k h = omega (arith, k, h)

  settle-Sent :
      (next : Option RestError → Rest W → Result CallError J × Rest W) (before most attempt : ℕ)
      (is_last : Bool) (o : Result RestError J × Rest W)
      → ((e : Option RestError) (s : Rest W) → Sent s.sent most (next e s))
      → One before o
      → Sent before
          (suc most)
          (settle fetch fuel late backoff random max_attempts weight next attempt is_last o)
  settle-Sent next before most attempt is_last (ok json, s) k h = omega (arith, h)
  settle-Sent next before most attempt is_last (err e, s) k (h, (inl f)) =
      if_split (Sent before (suc most)) (is_retryable e) (λ g. absurd (ground (arith, f, g)))
        (λ g. (omega (arith, h), g))
  settle-Sent next before most attempt is_last (err e, s) k (h, (inr f)) =
      let s' : Rest W = record s {
        now = s.now + (if is_last then 0 else wait_ms e attempt backoff random);
      } in
      if_split (Sent before (suc most)) (is_retryable e)
        (λ g. Sent-later before most s' (next (some e) s') f (k (some e) s'))
        (λ g. (omega (arith, h), g))

  request_loop-Sent :
      (left attempt : ℕ) (last_error : Option RestError) (s : Rest W)
      → Sent s.sent left (
          request_loop fetch fuel late backoff random max_attempts weight left attempt last_error s)
  unfolding request_loop
  request_loop-Sent zero attempt last_error s = omega arith
  request_loop-Sent (suc left) attempt last_error s =
      settle-Sent
        (request_loop fetch fuel late backoff random max_attempts weight left (attempt + 1)) s.sent
        left attempt (left == 0)
        (granted fetch fuel late backoff random max_attempts weight
          (acquire fuel late weight s.now s.limiter) s)
        (λ e s'. request_loop-Sent left (attempt + 1) e s')
        (granted-One (acquire fuel late weight s.now s.limiter) s)

  -- Whatever is answered, and whether or not a body can be read: a call sends at most `maxAttempts` requests; it gives up only after as many; and any
  -- other error that it throws is one that is not retried.
  pub request_json_attempts :
      (s : Rest W)
      → Sent s.sent max_attempts (request_json fetch fuel late backoff random max_attempts weight s)
  unfolding request_json
  request_json_attempts s = request_loop-Sent max_attempts 1 none s
