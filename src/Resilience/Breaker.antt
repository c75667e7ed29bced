-- ===== src/Resilience/Breaker.antt =====
-- observability/resilience.go: `CircuitBreaker`. `now` is the clock at the call.
pub mod Counters
pub mod Transitions
pub mod Tripping
use orkai_observability.Float64.{Float64}
use orkai_observability.Prelude.{
  ◌&&◌, Bool, Option, if◌then◌else◌, false, none, some, true, ◌||◌, ℕ,
}
use orkai_observability.Prelude.Int64.{Int64, add, sle, slt}
use orkai_observability.Types.{since}

pub data CircuitState : Type 0 where
  state_closed state_open state_half_open : CircuitState

pub data Error : Type 0 where
  err_circuit_open : Error
  -- any other error, as the transport returns it
  transport : ℕ → Error

pub record CircuitBreaker (F : Type 0) : Type 0 where
  pub state : CircuitState
  pub failures : Int64
  pub consecutive : Int64
  pub total : Int64
  pub last_change : ℕ
  pub threshold_ratio : F
  pub consecutive_limit : Int64
  pub cooldown : Int64

abbrev pub is_open : CircuitState → Bool
is_open state_open = true
is_open _ = false

abbrev pub is_half_open : CircuitState → Bool
is_half_open state_half_open = true
is_half_open _ = false

module _ {F : Type 0} where
  -- `State`
  unfoldable pub circuit_state : CircuitBreaker F → CircuitState
  circuit_state cb = cb.state

  unfoldable pub new_circuit_breaker : F → Int64 → Int64 → ℕ → CircuitBreaker F
  new_circuit_breaker ratio consecutive cooldown now = record {
    state = state_closed;
    failures = 0;
    consecutive = 0;
    total = 0;
    last_change = now;
    threshold_ratio = ratio;
    consecutive_limit = consecutive;
    cooldown = cooldown;
  }

  unfoldable pub allow : ℕ → CircuitBreaker F → Bool × CircuitBreaker F
  unfolding since
  allow now cb =
      if is_open cb.state
      then if slt cb.cooldown (since now cb.last_change)
        then (true, record cb { state = state_half_open; last_change = now })
        else (false, cb)
      else (true, cb)

  unfoldable pub trip : ℕ → CircuitBreaker F → CircuitBreaker F
  trip now cb = record cb { state = state_open; last_change = now }

  unfoldable pub reset : ℕ → CircuitBreaker F → CircuitBreaker F
  reset now cb = record cb {
    state = state_closed;
    failures = 0;
    consecutive = 0;
    total = 0;
    last_change = now;
  }

  unfoldable pub evaluate_success : ℕ → CircuitBreaker F → CircuitBreaker F
  unfolding reset
  evaluate_success now cb =
      let cb' = record cb { consecutive = 0 } in
      if is_half_open cb.state then reset now cb' else cb'

module _ {F : Type 0} ⦃f : Float64 F⦄ where
  unfoldable pub evaluate_failure : ℕ → CircuitBreaker F → CircuitBreaker F
  unfolding trip
  evaluate_failure now cb =
      let ratio = f.over (f.of_int cb.failures) (f.of_int cb.total) in
      if is_half_open cb.state
      then trip now cb
      else if sle cb.consecutive_limit cb.consecutive
          || (sle 10 cb.total && f.le cb.threshold_ratio ratio)
      then trip now cb
      else cb

  unfoldable pub record_result : ℕ → Option Error → CircuitBreaker F → CircuitBreaker F
  unfolding evaluate_failure evaluate_success
  record_result now (some err) cb = evaluate_failure now (record cb {
    total = add cb.total 1;
    failures = add cb.failures 1;
    consecutive = add cb.consecutive 1;
  })
  record_result now none cb = evaluate_success now (record cb { total = add cb.total 1 })
