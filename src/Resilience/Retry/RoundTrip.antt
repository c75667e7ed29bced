-- ===== src/Resilience/Retry/RoundTrip.antt =====
-- observability/resilience.go: `RoundTrip` through the breaker.
use orkai_observability.Float64.{Float64}
use orkai_observability.Prelude.{arith, false, none, some, true, ℕ, ◌↔◌, ◌≡◌, refl}
use orkai_observability.Prelude.Int64.{is_negative, slt}
use orkai_observability.Resilience.Breaker.{
  allow, err_circuit_open, record_result, state_closed, state_open, CircuitBreaker, state_half_open,
}
use orkai_observability.Resilience.Breaker.Transitions.{allow_probes, probe_decides}
use orkai_observability.Resilience.Retry.{
  Outcome, ResilientRoundTripper, check_outcome, is_transient_error, none_yet, round_trip,
}
use orkai_observability.Resilience.Retry.Loop.{execute_with_retry_once}
use orkai_observability.Types.{since}

-- The breaker is told of a failure exactly if the outcome is one that the loop retries.
pub check_outcome_iff : (o : Outcome) → (check_outcome o ≡ none) ↔ (is_transient_error o ≡ false)
unfolding check_outcome is_transient_error
check_outcome_iff (some r, some e) = ground arith
check_outcome_iff (none, some e) = ground arith
check_outcome_iff (some r, none) = ground arith
check_outcome_iff (none, none) = ground arith

module _ {F : Type 0} ⦃f : Float64 F⦄ (now later : ℕ) (next : ℕ → Outcome)
    (rt : ResilientRoundTripper F) where
  -- While the breaker is open and its cooldown has not passed, a round trip returns the error of the
  -- open circuit, calls the transport not once and leaves the breaker as it is.
  pub round_trip_refused :
      rt.breaker.state ≡ state_open
      → slt rt.breaker.cooldown (since now rt.breaker.last_change) ≡ false
      → round_trip now later next rt ≡ (((none, some err_circuit_open), none_yet), rt)
  unfolding round_trip allow
  round_trip_refused opened waiting = ground arith

  -- After the cooldown, with `retries` not negative: if the transport's first answer is not
  -- transient, the round trip calls it once, returns that answer and closes the breaker with its
  -- counters at zero.
  pub round_trip_recovers :
      rt.breaker.state ≡ state_open
      → slt rt.breaker.cooldown (since now rt.breaker.last_change) ≡ true
      → is_negative rt.retries ≡ false
      → is_transient_error (next 0) ≡ false
      → let (r, rt') = round_trip now later next rt in
        (r.0 ≡ next 0)
        × (r.1.calls ≡ 1)
        × (rt'.breaker.state ≡ state_closed)
        × (rt'.breaker.failures ≡ 0)
        × (rt'.breaker.consecutive ≡ 0)
        × (rt'.breaker.total ≡ 0)
  unfolding round_trip
  round_trip_recovers opened waited several good =
      rw (execute_with_retry_once next rt.backoff rt.retries several good) (
        rw (allow_probes now rt.breaker opened waited, (check_outcome_iff (next 0)).1 good)
          (refl, refl, closed.0, closed.1, closed.2, closed.3))
    where
      half : CircuitBreaker F
      half = record rt.breaker { state = state_half_open; last_change = now }

      closed :
          ((record_result later none half).state ≡ state_closed)
          × ((record_result later none half).failures ≡ 0)
          × ((record_result later none half).consecutive ≡ 0)
          × ((record_result later none half).total ≡ 0)
      closed = let p = probe_decides later err_circuit_open half refl in (p.0, p.1, p.2, p.3)
