-- ===== src/Resilience/Breaker/Transitions.antt =====
-- observability/resilience.go: the transition diagram of `CircuitBreaker`.
use orkai_observability.Float64.{Float64}
use orkai_observability.Prelude.{
  Bool, ◌&&◌, ◌||◌, Option, arith, false, none, some, ℕ, ◌≡◌, ◌↔◌, true,
}
use orkai_observability.Prelude.Int64.{add, sle, slt}
use orkai_observability.Resilience.Breaker.{
  CircuitBreaker, CircuitState, Error, allow, record_result, state_closed, state_half_open,
  state_open,
}
use orkai_observability.Types.{since}

infix 40 ◌⟶◌
-- The edges of the diagram; a call may also stay in its state.
pub data ◌⟶◌ : CircuitState → CircuitState → Type 0 where
  stay : (s : CircuitState) → s ⟶ s
  trips : state_closed ⟶ state_open
  probes : state_open ⟶ state_half_open
  recovers : state_half_open ⟶ state_closed
  relapses : state_half_open ⟶ state_open

ruleset edges = (stay, trips, probes, recovers, relapses)

-- How a breaker reacts to a result: whether a failure now reaches one of its limits, its state, the
-- result, and the next state.
pub data Reacts : Bool → CircuitState → Option Error → CircuitState → Type 0 where
  serves : (limit : Bool) → Reacts limit state_closed none state_closed
  endures : (e : Error) → Reacts false state_closed (some e) state_closed
  trips_at : (e : Error) → Reacts true state_closed (some e) state_open
  closes : (limit : Bool) → Reacts limit state_half_open none state_closed
  reopens : (limit : Bool) (e : Error) → Reacts limit state_half_open (some e) state_open
  waits : (limit : Bool) (err : Option Error) → Reacts limit state_open err state_open

-- The only state that follows.
abbrev reaction : Bool → CircuitState → Option Error → CircuitState
reaction limit state_closed none = state_closed
reaction false state_closed (some e) = state_closed
reaction true state_closed (some e) = state_open
reaction limit state_half_open none = state_closed
reaction limit state_half_open (some e) = state_open
reaction limit state_open err = state_open

module _ {F : Type 0} where
  -- `Allow` follows an edge of the diagram.
  pub allow-⟶ : (now : ℕ) (cb : CircuitBreaker F) → cb.state ⟶ (allow now cb).1.state
  unfolding allow
  allow-⟶ now cb = grind (arith, edges)

  -- A request is refused exactly when the breaker is open and its cooldown has not passed.
  pub allow-refused_iff :
      (now : ℕ) (cb : CircuitBreaker F)
      → ((allow now cb).0 ≡ false)
        ↔ ((cb.state ≡ state_open) × (slt cb.cooldown (since now cb.last_change) ≡ false))
  unfolding allow
  allow-refused_iff now cb = ground arith

  -- The first request after the cooldown is let through, and makes the breaker half-open.
  pub allow_probes :
      (now : ℕ) (cb : CircuitBreaker F)
      → cb.state ≡ state_open
      → slt cb.cooldown (since now cb.last_change) ≡ true
      → allow now cb ≡ (true, record cb { state = state_half_open; last_change = now })
  unfolding allow
  allow_probes now cb opened waited = ground arith

  pub allow_refused_unchanged :
      (now : ℕ) (cb : CircuitBreaker F) → (allow now cb).0 ≡ false → (allow now cb).1 ≡ cb
  unfolding allow
  allow_refused_unchanged now cb h = ground arith

module _ {F : Type 0} ⦃f : Float64 F⦄ where
  -- `RecordResult` follows an edge of the diagram, whatever the result.
  pub record_result-⟶ :
      (now : ℕ) (err : Option Error) (cb : CircuitBreaker F)
      → cb.state ⟶ (record_result now err cb).state
  unfolding record_result
  record_result-⟶ now none cb = grind (arith, edges)
  record_result-⟶ now (some e) cb = grind (arith, edges)

  -- Whether one more failure makes the consecutive failures reach their limit, or the ratio of the
  -- failures its threshold from ten requests on.
  abbrev pub reaches_limit : CircuitBreaker F → Bool
  reaches_limit cb =
      let failures = add cb.failures 1 in
      let total = add cb.total 1 in
      sle cb.consecutive_limit (add cb.consecutive 1)
      || (sle 10 total && f.le cb.threshold_ratio (f.over (f.of_int failures) (f.of_int total)))

  -- No result moves an open breaker: only `Allow` does.
  pub record_result_open :
      (now : ℕ) (err : Option Error) (cb : CircuitBreaker F)
      → cb.state ≡ state_open
      → (record_result now err cb).state ≡ state_open
  unfolding record_result
  record_result_open now none cb h = ground arith
  record_result_open now (some e) cb h = ground arith

  -- The probe of a half-open breaker decides: a success closes it with every counter at zero, a
  -- failure opens it again and starts a new cooldown.
  pub probe_decides :
      (now : ℕ) (e : Error) (cb : CircuitBreaker F)
      → cb.state ≡ state_half_open
      → let good = record_result now none cb in
        let bad = record_result now (some e) cb in
        (good.state ≡ state_closed)
        × (good.failures ≡ 0)
        × (good.consecutive ≡ 0)
        × (good.total ≡ 0)
        × (bad.state ≡ state_open)
        × (bad.last_change ≡ now)
        × ((allow now bad).0 ≡ slt bad.cooldown 0)
  unfolding record_result allow
  probe_decides now e cb h = ground arith
