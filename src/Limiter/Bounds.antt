-- ===== src/Limiter/Bounds.antt =====
-- observability/limiter.go: the tokens of the bucket.
use orkai_observability.Float64.{Float64}
use orkai_observability.Limiter.{LogRateLimiter, new_log_rate_limiter, refilled, allow}
use orkai_observability.Prelude.{Bool, arith, false, ℕ, ◌≡◌}
use orkai_observability.Prelude.Int64.{Int64}

-- What is needed of `float64`: no number is below itself, and subtracting 1 from a number that does
-- not exceed a bound gives one that does not. Both hold of NaN and of the infinities too.
pub record SubtractsDown {F : Type 0} (f : Float64 F) : Type 0 where
  pub lt_irrefl : (a : F) → f.lt a a ≡ false
  pub minus_one : (a b : F) → f.lt b a ≡ false → f.lt b (f.minus a (f.of_int 1)) ≡ false

-- The tokens do not exceed the burst.
abbrev pub IsWithin : {F : Type 0} ⦃f : Float64 F⦄ → LogRateLimiter F → Type 0
IsWithin ⦃f⦄ l = f.lt (f.of_int l.burst) l.tokens ≡ false

module _ {F : Type 0} ⦃f : Float64 F⦄ (laws : SubtractsDown f) (seconds : Int64 → F) where
  -- A new limiter starts with a full bucket, and no more.
  pub new-IsWithin :
      (burst rate : Int64) (enabled : Bool) (now : ℕ)
      → IsWithin {F = F} (new_log_rate_limiter burst rate enabled now)
  unfolding new_log_rate_limiter
  new-IsWithin burst rate enabled now = laws.lt_irrefl (f.of_int burst)

  capped :
      (now : ℕ) (l : LogRateLimiter F) → f.lt (f.of_int l.burst) (refilled seconds now l) ≡ false
  capped now l = ground (arith, laws.lt_irrefl (f.of_int l.burst))

  -- Every call, at any time and whatever it answers, leaves at most `burst` tokens in the bucket,
  -- however long the refill; the configuration of the limiter never changes.
  pub allow-IsWithin :
      (now : ℕ) (l : LogRateLimiter F)
      → IsWithin l
      → IsWithin (allow seconds now l).1
        × ((allow seconds now l).1.burst ≡ l.burst)
        × ((allow seconds now l).1.rate ≡ l.rate)
        × ((allow seconds now l).1.enabled ≡ l.enabled)
  unfolding allow
  allow-IsWithin now l h = ground (
    arith,
    capped now l,
    laws.minus_one (refilled seconds now l) (f.of_int l.burst) (capped now l),
  )
