-- ===== src/Limiter/Tests.antt =====
-- The laws of the rate limiter at concrete inputs, in thousandths of a token.
use orkai_observability.Float64.{thousandths}
use orkai_observability.Limiter.{LogRateLimiter, allow, new_log_rate_limiter}
use orkai_observability.Limiter.Bounds.{IsWithin, SubtractsDown, allow-IsWithin}
use orkai_observability.Limiter.Sampling.{one_in_ten, passed}
use orkai_observability.Prelude.{◌+◌, ◌/◌, [], arith, refl, true, ℕ, ◌∷◌, ◌≡◌}
use orkai_observability.Prelude.Int64.{Int64}

abbrev seconds : Int64 → ℕ
seconds d = d / 1000000

thousandths-SubtractsDown : SubtractsDown thousandths
thousandths-SubtractsDown = record {
  lt_irrefl = λ a. ground arith;
  minus_one = λ a b h. ground arith;
}

abbrev pair : LogRateLimiter ℕ
pair = record {
  burst = 2;
  rate = 1000;
  tokens = 2000;
  last_refill = 0;
  skipped_count = 0;
  enabled = true;
}

pair_is_new : new_log_rate_limiter 2 1 true 0 ≡ pair
unfolding new_log_rate_limiter
pair_is_new = refl

allow-IsWithin_example :
    IsWithin (allow seconds 7 pair).1
    × ((allow seconds 7 pair).1.burst ≡ 2)
    × ((allow seconds 7 pair).1.rate ≡ 1000)
    × ((allow seconds 7 pair).1.enabled ≡ true)
allow-IsWithin_example = allow-IsWithin thousandths-SubtractsDown seconds 7 pair refl

abbrev dry : LogRateLimiter ℕ
dry = record pair { tokens = 0; skipped_count = 8 }

two_skipped : (passed seconds (0 ∷ 0 ∷ []) dry).0 + 8 / 10 ≡ (8 + 2) / 10
unfolding allow
two_skipped = one_in_ten seconds (0 ∷ 0 ∷ []) dry refl (omega arith) (refl, (refl, tt))
