-- ===== src/Resilience/Tests.antt =====
-- The laws of the circuit breaker and of the retries at concrete inputs.
use orkai_observability.Float64.{thousandths}
use orkai_observability.Prelude.{◌-◌, [], arith, none, refl, some, suc, zero, ℕ, ◌∷◌, ◌≡◌}
use orkai_observability.Resilience.Breaker.{
  CircuitBreaker, new_circuit_breaker, record_result, state_closed, state_half_open, state_open,
  transport,
}
use orkai_observability.Resilience.Breaker.Counters.{IsCounting}
use orkai_observability.Resilience.Breaker.Tripping.{
  after_all, after_all-IsCounting, asks, fail_all, failures_open, reports,
}
use orkai_observability.Resilience.Retry.{
  Outcome, ResilientRoundTripper, execute_with_retry, is_transient_error, none_yet, retry_loop,
  round_trip,
}
use orkai_observability.Resilience.Retry.Loop.{
  Ends, doubling, execute_with_retry-Ends, sleeps_double,
}
use orkai_observability.Resilience.Retry.RoundTrip.{round_trip_recovers}
use orkai_observability.Types.{since}

abbrev fresh : CircuitBreaker ℕ
fresh = record {
  state = state_closed;
  failures = 0;
  consecutive = 0;
  total = 0;
  last_change = 0;
  threshold_ratio = 500;
  consecutive_limit = 2;
  cooldown = 10;
}

abbrev opened : CircuitBreaker ℕ
opened = record fresh {
  state = state_open;
  failures = 2;
  consecutive = 2;
  total = 2;
  last_change = 5;
}

abbrev probing : CircuitBreaker ℕ
probing = record opened { state = state_half_open }

fresh-IsCounting : IsCounting fresh
fresh-IsCounting = ground arith

new_is_fresh : new_circuit_breaker {F = ℕ} 500 2 10 0 ≡ fresh
unfolding new_circuit_breaker
new_is_fresh = refl

two_failures : (fail_all ((3, transport 0) ∷ (5, transport 0) ∷ []) fresh).state ≡ state_open
unfolding fail_all record_result
two_failures = refl

failures_trip : (fail_all ((3, transport 0) ∷ (5, transport 0) ∷ []) fresh).state ≡ state_open
failures_trip =
    failures_open ((3, transport 0) ∷ (5, transport 0) ∷ []) fresh fresh-IsCounting refl
      (omega arith) (omega arith) (omega arith) (omega arith)

after_all-IsCounting_example :
    IsCounting (after_all fresh (asks 1 ∷ reports 2 (some (transport 3)) ∷ reports 4 none ∷ []))
after_all-IsCounting_example =
    after_all-IsCounting fresh (asks 1 ∷ reports 2 (some (transport 3)) ∷ reports 4 none ∷ [])
      fresh-IsCounting (omega arith)

-- A server that is unavailable twice and then answers.
abbrev flaky : ℕ → Outcome
flaky zero = (some (record { status_code = 503 }), none)
flaky (suc zero) = (none, some (transport 7))
flaky (suc (suc n)) = (some (record { status_code = 200 }), none)

flaky_run : (execute_with_retry flaky 3 100).sleeps ≡ 100 ∷ 200 ∷ []
unfolding execute_with_retry
flaky_run = refl

execute_with_retry-Ends_example :
    (retry_loop flaky 100 3 9 0 none_yet ≡ execute_with_retry flaky 3 100)
    × Ends flaky 4 none_yet (execute_with_retry flaky 3 100)
execute_with_retry-Ends_example = execute_with_retry-Ends flaky 100 3 9 (omega arith) (omega arith)

flaky_doubles : let r = execute_with_retry flaky 3 100 in r.sleeps ≡ doubling 100 0 (r.calls - 1)
flaky_doubles = sleeps_double flaky 100 3 (omega arith)

abbrev client : ResilientRoundTripper ℕ
client = record { breaker = opened; retries = 3; backoff = 100 }

abbrev healthy : ℕ → Outcome
healthy n = (some (record { status_code = 200 }), none)

round_trip_recovers_example :
    let (r, rt) = round_trip 90 92 healthy client in
    (r.0 ≡ healthy 0)
    × (r.1.calls ≡ 1)
    × (rt.breaker.state ≡ state_closed)
    × (rt.breaker.failures ≡ 0)
    × (rt.breaker.consecutive ≡ 0)
    × (rt.breaker.total ≡ 0)
unfolding since is_transient_error
round_trip_recovers_example = round_trip_recovers 90 92 healthy client refl refl refl refl
