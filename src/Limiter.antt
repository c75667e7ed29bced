-- ===== src/Limiter.antt =====
-- observability/limiter.go: the token bucket that limits log entries.
pub mod Bounds
pub mod Sampling
mod Tests
use orkai_observability.Float64.{Float64}
use orkai_observability.Prelude.{◌%◌, ◌+◌, ◌==◌, Bool, if◌then◌else◌, false, not, true, ℕ}
use orkai_observability.Prelude.Int64.{Int64, word}
use orkai_observability.Types.{since}

pub record LogRateLimiter (F : Type 0) : Type 0 where
  pub burst : Int64
  pub rate : F
  pub tokens : F
  pub last_refill : ℕ
  -- uint64
  pub skipped_count : ℕ
  pub enabled : Bool

module _ {F : Type 0} ⦃f : Float64 F⦄ where
  unfoldable pub new_log_rate_limiter : Int64 → Int64 → Bool → ℕ → LogRateLimiter F
  new_log_rate_limiter burst rate enabled now = record {
    burst = burst;
    rate = f.of_int rate;
    tokens = f.of_int burst;
    last_refill = now;
    skipped_count = 0;
    enabled = enabled;
  }

  -- The tokens after the refill. `seconds` is `time.Duration.Seconds`.
  abbrev pub refilled : (Int64 → F) → ℕ → LogRateLimiter F → F
  refilled seconds now l =
      let tokens = f.plus l.tokens (f.times (seconds (since now l.last_refill)) l.rate) in
      if f.lt (f.of_int l.burst) tokens then f.of_int l.burst else tokens

  -- The results are (allow, throttled).
  unfoldable pub allow : (Int64 → F) → ℕ → LogRateLimiter F → (Bool × Bool) × LogRateLimiter F
  unfolding since
  allow seconds now l =
      let tokens = refilled seconds now l in
      let l' = record l { last_refill = now; tokens = tokens } in
      let skipped = (l.skipped_count + 1) % word in
      if not l.enabled
      then ((true, false), l)
      else if f.le (f.of_int 1) tokens
      then ((true, false), record l' { tokens = f.minus tokens (f.of_int 1) })
      else if skipped % 10 == 0
      then ((true, true), record l' { skipped_count = skipped })
      else ((false, false), record l' { skipped_count = skipped })
