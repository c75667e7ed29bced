-- ===== src/Resilience/Breaker/Counters.antt =====
-- observability/resilience.go: the counters of `CircuitBreaker`.
use orkai_observability.Float64.{Float64}
use orkai_observability.Prelude.{◌+◌, ◌<◌, Option, arith, false, none, some, ℕ, ◌≡◌, ◌≤◌, ◌⊎◌}
use orkai_observability.Prelude.Int64.{Int64, half_word, sle}
use orkai_observability.Resilience.Breaker.{
  CircuitBreaker, Error, allow, new_circuit_breaker, record_result, state_closed,
}

-- No counter has wrapped, and each counts a part of the next. A closed breaker is below its limit of
-- consecutive failures, or has just seen a success.
pub record IsCounting {F : Type 0} (cb : CircuitBreaker F) : Type 0 where
  pub consecutive_le : cb.consecutive ≤ cb.failures
  pub failures_le : cb.failures ≤ cb.total
  pub total_lt : cb.total < half_word
  pub below_limit :
      cb.state ≡ state_closed
      → (cb.consecutive ≡ 0) ⊎ (sle cb.consecutive_limit cb.consecutive ≡ false)

module _ {F : Type 0} where
  -- A new breaker satisfies the invariant.
  pub new-IsCounting :
      (ratio : F) (limit cooldown : Int64) (now : ℕ)
      → IsCounting (new_circuit_breaker ratio limit cooldown now)
  unfolding new_circuit_breaker
  new-IsCounting ratio limit cooldown now = ground arith

  pub allow-IsCounting :
      (now : ℕ) (cb : CircuitBreaker F) → IsCounting cb → IsCounting (allow now cb).1
  unfolding allow
  allow-IsCounting now cb h = ground arith

module _ {F : Type 0} ⦃f : Float64 F⦄ where
  -- Every result that is recorded, a success or a failure in any state, keeps the counters consistent
  -- and a closed breaker below its limit, as long as fewer than 2 ^ 63 - 1 results are recorded
  -- between two resets.
  pub record_result-IsCounting :
      (now : ℕ) (err : Option Error) (cb : CircuitBreaker F)
      → cb.total + 1 < half_word
      → IsCounting cb
      → IsCounting (record_result now err cb)
  unfolding record_result
  record_result-IsCounting now (some e) cb room h = ground arith
  record_result-IsCounting now none cb room h = ground arith
