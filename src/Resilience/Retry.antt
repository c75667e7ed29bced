-- ===== src/Resilience/Retry.antt =====
-- observability/resilience.go: `ResilientRoundTripper`. The wrapped transport is not defined by the
-- program: it is a function from the number of the call, since a transport may answer each call in
-- its own way.
pub mod Loop
pub mod RoundTrip
use orkai_observability.Float64.{Float64}
use orkai_observability.Prelude.{
  ◌%◌, ◌+◌, ◌++◌, ◌-◌, ◌==◌, Bool, List, Option, [], ◌^◌, if◌then◌else◌, false, none, some, suc,
  true, zero, ◌||◌, ℕ, ◌∷◌,
}
use orkai_observability.Prelude.Int64.{Int64, add, is_negative, mul, sle, slt, word}
use orkai_observability.Resilience.Breaker.{
  CircuitBreaker, Error, allow, err_circuit_open, record_result,
}
use orkai_observability.Table.{or_zero}

-- The part of `http.Response` that the program reads.
pub record Response : Type 0 where
  pub status_code : Int64

abbrev pub Outcome : Type 0
Outcome = Option Response × Option Error

abbrev pub unavailable : Response → Bool
unavailable r = r.status_code == 503 || r.status_code == 504

unfoldable pub is_transient_error : Outcome → Bool
is_transient_error (resp, some err) = true
is_transient_error (some r, none) = unavailable r
is_transient_error (none, none) = false

unfoldable pub check_outcome : Outcome → Option Error
check_outcome (resp, some err) = some err
check_outcome (some r, none) = if unavailable r then some err_circuit_open else none
check_outcome (none, none) = none

-- `1 << uint(attempt-1)` on 64 bits: 0 from the 65th retry on.
unfoldable pub calculate_backoff : Int64 → Int64 → Int64
calculate_backoff backoff attempt = mul backoff (2 ^ (attempt - 1) % word)

-- The variables of the loop, with the calls made and the times slept.
pub record Attempts : Type 0 where
  pub outcome : Outcome
  pub calls : ℕ
  pub sleeps : List Int64

abbrev pub none_yet : Attempts
none_yet = record { outcome = (none, none); calls = 0; sleeps = [] }

abbrev pub attempt_once : (ℕ → Outcome) → Int64 → Int64 → Attempts → Attempts
attempt_once next backoff attempt s = record {
  outcome = next s.calls;
  calls = s.calls + 1;
  sleeps = if slt 0 attempt then s.sleeps ++ calculate_backoff backoff attempt ∷ [] else s.sleeps;
}

-- for attempt := 0; attempt <= rt.retries; attempt++. The fuel bounds the tests of the condition.
unfoldable pub retry_loop : (ℕ → Outcome) → Int64 → Int64 → ℕ → Int64 → Attempts → Attempts
unfolding is_transient_error calculate_backoff
retry_loop next backoff retries zero attempt s = s
retry_loop next backoff retries (suc fuel) attempt s =
    let s' = attempt_once next backoff attempt s in
    let rest = retry_loop next backoff retries fuel (add attempt 1) s' in
    if sle attempt retries then (if is_transient_error s'.outcome then rest else s') else s

-- Enough for every `retries` but the largest `int`, which `attempt` never exceeds: with that one, the
-- loop of the program goes on where the fuel ends.
abbrev pub rounds : Int64 → ℕ
rounds retries = if is_negative retries then 0 else suc retries

unfoldable pub execute_with_retry : (ℕ → Outcome) → Int64 → Int64 → Attempts
unfolding retry_loop
execute_with_retry next retries backoff =
    retry_loop next backoff retries (rounds retries) 0 none_yet

pub record ResilientRoundTripper (F : Type 0) : Type 0 where
  pub breaker : CircuitBreaker F
  pub retries : Int64
  pub backoff : Int64

unfoldable pub new_resilient_round_tripper {ℓ} :
    {N : Type ℓ} {F : Type 0}
    → Option N
    → N
    → CircuitBreaker F
    → Int64
    → Int64
    → N × ResilientRoundTripper F
new_resilient_round_tripper next default_transport cb retries backoff =
    (or_zero default_transport next, record { breaker = cb; retries = retries; backoff = backoff })

module _ {F : Type 0} ⦃f : Float64 F⦄ where
  -- The clock is read when the request is allowed and when its result is recorded.
  unfoldable pub round_trip :
      ℕ
      → ℕ
      → (ℕ → Outcome)
      → ResilientRoundTripper F
      → (Outcome × Attempts) × ResilientRoundTripper F
  round_trip now later next rt =
      let (allowed, cb) = allow now rt.breaker in
      let a = execute_with_retry next rt.retries rt.backoff in
      if allowed
      then (
        (a.outcome, a),
        record rt { breaker = record_result later (check_outcome a.outcome) cb },
      )
      else (((none, some err_circuit_open), none_yet), record rt { breaker = cb })
