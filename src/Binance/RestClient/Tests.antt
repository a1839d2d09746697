-- ===== src/Binance/RestClient/Tests.antt =====
-- A run of the REST client against a server that fails twice, and its theorem there.
use ariai_exam.Prelude.{
  ℕ, ◌+◌, ◌≡◌, refl, [], false, Option, none, some, ltb, if◌then◌else◌, ok, err,
}
use ariai_exam.Binance.RateLimiter.{
  acquire, acquire_loop, acquire_round, sync_server_used_weight, apply_retry_after,
}
use ariai_exam.Binance.WsClient.{default_backoff_policy, compute_backoff_ms}
use ariai_exam.Binance.RestClient.{
  Response, Rest, attempt_failed, body_error, fetch_once, request_loop, request_json,
}
use ariai_exam.Binance.RestClient.Attempts.{Sent, request_json_attempts}

abbrev fresh : Rest ℕ
fresh = record {
  limiter = record {
    budget_per_min = 10;
    window_ms = 1_000;
    entries = [];
    paused_until = 0;
    banned = false;
    banned_reason = "";
  };
  now = 0;
  world = 0;
  sent = 0;
}

-- A timeout, a 429 with two seconds, and then the answer 7.
abbrev fails_twice : ℕ → Option (Response ℕ) × ℕ
fails_twice asked = (
  if ltb asked 1
      then none
      else if ltb asked 2
      then some (record { status = 429; used_weight = none; retry_after = some 2; json = none })
      else some (record { status = 200; used_weight = some 5; retry_after = none; json = some 7 }),
  asked + 1,
)

request_runs :
    (request_json fails_twice 4 (λ k. 0) default_backoff_policy 500_000 3 1 fresh).0 ≡ ok 7
unfolding request_json request_loop fetch_once acquire acquire_loop acquire_round
    sync_server_used_weight apply_retry_after compute_backoff_ms
request_runs = refl

-- The body of the first answer breaks off, and the call throws at once, with no other attempt.
abbrev breaks_off : ℕ → Option (Response ℕ) × ℕ
breaks_off asked =
    (some (record { status = 200; used_weight = none; retry_after = none; json = none }), asked + 1)

break_off_runs :
    let (r, s) = request_json breaks_off 4 (λ k. 0) default_backoff_policy 500_000 3 1 fresh in
    (r ≡ err (attempt_failed body_error)) × (s.sent ≡ 1)
unfolding request_json request_loop fetch_once acquire acquire_loop acquire_round
    sync_server_used_weight apply_retry_after compute_backoff_ms
break_off_runs = (refl, refl)

request_json_attempts_example :
    Sent 0 3 (request_json fails_twice 4 (λ k. 0) default_backoff_policy 500_000 3 1 fresh)
request_json_attempts_example =
    request_json_attempts fails_twice 4 (λ k. 0) default_backoff_policy 500_000 3 1 fresh
