-- ===== src/Limiter/Sampling.antt =====
-- observability/limiter.go: what `Allow` answers.
use orkai_observability.Float64.{Float64}
use orkai_observability.Limiter.{LogRateLimiter, refilled, allow}
use orkai_observability.Prelude.{
  ◌%◌, ◌+◌, ◌/◌, ◌<◌, ◌==◌, List, [], arith, if◌then◌else◌, false, length, true, ℕ, ◌↔◌, ◌∷◌, ◌≡◌,
}
use orkai_observability.Prelude.Int64.{Int64, word}

module _ {F : Type 0} ⦃f : Float64 F⦄ (seconds : Int64 → F) where
  -- An entry passes because the limiter is off, or a token was there, or it is the sample; it is
  -- marked as throttled exactly in the last case.
  pub allow_throttled_iff :
      (now : ℕ) (l : LogRateLimiter F)
      → ((allow seconds now l).0.1 ≡ true) ↔ (
          (l.enabled ≡ true)
          × (f.le (f.of_int 1) (refilled seconds now l) ≡ false)
          × ((l.skipped_count + 1) % word % 10 ≡ 0))
  unfolding allow
  allow_throttled_iff now l = ground arith

  -- A run of calls at the given times, all of which find the bucket empty: the number of entries
  -- that pass, and the limiter afterwards.
  pub passed : List ℕ → LogRateLimiter F → ℕ × LogRateLimiter F
  passed [] l = (0, l)
  passed (now ∷ times) l =
      let (r, l') = allow seconds now l in
      let (n, l'') = passed times l' in ((if r.0 then n + 1 else n), l'')

  -- Each call of the run finds the bucket empty.
  abbrev pub Dry : List ℕ → LogRateLimiter F → Type 0
  Dry [] l = Unit
  Dry (now ∷ times) l =
      (f.le (f.of_int 1) (refilled seconds now l) ≡ false) × Dry times (allow seconds now l).1

  dry_call :
      (now : ℕ) (l : LogRateLimiter F)
      → l.enabled ≡ true
      → l.skipped_count + 1 < word
      → f.le (f.of_int 1) (refilled seconds now l) ≡ false
      → ((allow seconds now l).0.0 ≡ ((l.skipped_count + 1) % 10 == 0))
        × ((allow seconds now l).1.skipped_count ≡ l.skipped_count + 1)
        × ((allow seconds now l).1.enabled ≡ true)
  unfolding allow
  dry_call now l on room dry = ground arith

  -- While the bucket is empty, exactly one entry in ten passes: after `n` calls, as many as there are
  -- multiples of ten between the old and the new count of skipped entries.
  pub one_in_ten :
      (times : List ℕ) (l : LogRateLimiter F)
      → l.enabled ≡ true
      → l.skipped_count + length times < word
      → Dry times l
      → (passed times l).0 + l.skipped_count / 10 ≡ (l.skipped_count + length times) / 10
  unfolding passed
  one_in_ten [] l on room dry = omega arith
  one_in_ten (now ∷ times) l on room dry =
      let (first, count, still) = dry_call now l on (omega arith) dry.0 in
      let l' = (allow seconds now l).1 in
      let rest : (passed times l').0 + l'.skipped_count / 10
          ≡ (l'.skipped_count + length times) / 10 =
        one_in_ten times l' still (omega (arith, count)) dry.1 in
      ground (arith, first, count, rest)
