-- ===== src/Resilience/Breaker/Tripping.antt =====
-- observability/resilience.go: sequences of calls of `CircuitBreaker`.
use orkai_observability.Float64.{Float64}
use orkai_observability.Prelude.{
  ◌+◌, ◌<◌, List, [], arith, inl, inr, length, some, ℕ, ◌∷◌, ◌≡◌, ◌≤◌, ◌⊎◌, Option, none,
}
use orkai_observability.Prelude.Int64.{half_word}
use orkai_observability.Resilience.Breaker.{
  CircuitBreaker, Error, record_result, state_closed, state_open, allow,
}
use orkai_observability.Resilience.Breaker.Counters.{
  IsCounting, record_result-IsCounting, allow-IsCounting,
}
use orkai_observability.Resilience.Breaker.Transitions.{record_result_open}

module _ {F : Type 0} ⦃f : Float64 F⦄ where
  -- One failed result after another, each with its time and error.
  unfoldable pub fail_all : List (ℕ × Error) → CircuitBreaker F → CircuitBreaker F
  fail_all [] cb = cb
  fail_all ((now, e) ∷ es) cb = fail_all es (record_result now (some e) cb)

  stays_open :
      (es : List (ℕ × Error)) (cb : CircuitBreaker F)
      → cb.state ≡ state_open
      → (fail_all es cb).state ≡ state_open
  unfolding fail_all
  stays_open [] cb h = h
  stays_open ((now, e) ∷ es) cb h =
      stays_open es (record_result now (some e) cb) (record_result_open now (some e) cb h)

  counts_up :
      (now : ℕ) (e : Error) (cb : CircuitBreaker F)
      → cb.total + 1 < half_word
      → IsCounting cb
      → cb.state ≡ state_closed
      → ((record_result now (some e) cb).state ≡ state_open)
        ⊎ (((record_result now (some e) cb).state ≡ state_closed)
            × ((record_result now (some e) cb).consecutive ≡ cb.consecutive + 1)
            × ((record_result now (some e) cb).total ≡ cb.total + 1)
            × ((record_result now (some e) cb).consecutive_limit ≡ cb.consecutive_limit))
  unfolding record_result
  counts_up now e cb room h closed = ground arith

  -- From any consistent closed breaker with a positive limit, that many failures in a row open it, or
  -- fewer; further failures leave it open.
  pub failures_open :
      (es : List (ℕ × Error)) (cb : CircuitBreaker F)
      → IsCounting cb
      → cb.state ≡ state_closed
      → 0 < cb.consecutive_limit
      → cb.consecutive_limit ≤ cb.consecutive + length es
      → cb.consecutive_limit < half_word
      → cb.total + length es < half_word
      → (fail_all es cb).state ≡ state_open
  unfolding fail_all
  failures_open [] cb h closed pos enough small room = absurd (ground (arith, h.below_limit closed))
  failures_open ((now, e) ∷ es) cb h closed pos enough small room =
      elim (counts_up now e cb (omega arith) h closed) [
        | inl opened ↦ stays_open es (record_result now (some e) cb) opened
        | inr (still, more, one, limit) ↦
            failures_open es (record_result now (some e) cb)
              (record_result-IsCounting now (some e) cb (omega arith) h) still (omega arith)
              (omega arith) (omega arith) (omega arith)
      ]

-- The calls that a breaker sees: requests and results, at any times and in any order, also results
-- of requests that were let through before it opened.
pub data Call : Type 0 where
  asks : ℕ → Call
  reports : ℕ → Option Error → Call

module _ {F : Type 0} ⦃f : Float64 F⦄ where
  pub after : CircuitBreaker F → Call → CircuitBreaker F
  after cb (asks now) = (allow now cb).1
  after cb (reports now err) = record_result now err cb

  pub after_all : CircuitBreaker F → List Call → CircuitBreaker F
  after_all cb [] = cb
  after_all cb (c ∷ cs) = after_all (after cb c) cs

  after-total :
      (cb : CircuitBreaker F) (c : Call)
      → cb.total + 1 < half_word
      → (after cb c).total ≤ cb.total + 1
  unfolding after allow record_result
  after-total cb (asks now) h = ground arith
  after-total cb (reports now none) h = ground arith
  after-total cb (reports now (some e)) h = ground arith

  after-IsCounting :
      (cb : CircuitBreaker F) (c : Call)
      → cb.total + 1 < half_word
      → IsCounting cb
      → IsCounting (after cb c)
  unfolding after
  after-IsCounting cb (asks now) room h = allow-IsCounting now cb h
  after-IsCounting cb (reports now err) room h = record_result-IsCounting now err cb room h

  -- Whatever calls a consistent breaker sees, in whatever order and at whatever times, its counters
  -- stay consistent and a closed breaker stays below its limit, as long as the calls are too few to
  -- make a counter wrap.
  pub after_all-IsCounting :
      (cb : CircuitBreaker F) (cs : List Call)
      → IsCounting cb
      → cb.total + length cs < half_word
      → IsCounting (after_all cb cs)
  unfolding after_all
  after_all-IsCounting cb [] h room = h
  after_all-IsCounting cb (c ∷ cs) h room =
      after_all-IsCounting (after cb c) cs (after-IsCounting cb c (omega arith) h)
        (omega (arith, after-total cb c (omega arith)))
