-- ===== src/Resilience/Retry/Loop.antt =====
-- observability/resilience.go: the loop of `executeWithRetry`.
use native.Mathlib.Numerals.{add-one}
use orkai_observability.Prelude.{
  ◌+◌, arith, false, inr, refl, suc, true, zero, ℕ, ◌≡◌, ◌≤◌, ◌⊎◌, ◌%◌, ◌++◌, ◌-◌, Bool-cases, List,
  [], ◌^◌, ap, append-nil, inl, sym, ◌∙◌, ◌∷◌, append_assoc, subst, if◌then◌else◌, ◌<◌,
}
use orkai_observability.Prelude.Int64.{Int64, add, half_word, is_negative, mul, sle, slt, word}
use orkai_observability.Resilience.Retry.{
  Attempts, Outcome, is_transient_error, retry_loop, attempt_once, execute_with_retry, none_yet,
  calculate_backoff,
}

-- The loop with the rounds that are left in place of its condition.
counted_loop : (ℕ → Outcome) → Int64 → ℕ → ℕ → Attempts → Attempts
unfolding is_transient_error calculate_backoff
counted_loop next backoff zero attempt s = s
counted_loop next backoff (suc left) attempt s =
    let s' = attempt_once next backoff attempt s in
    let rest = counted_loop next backoff left (attempt + 1) s' in
    if is_transient_error s'.outcome then rest else s'

-- Each outcome from the `i`-th on, for `n` calls, is transient.
pub AllTransient : (ℕ → Outcome) → ℕ → ℕ → Type 0
AllTransient next i zero = Unit
AllTransient next i (suc n) = (is_transient_error (next i) ≡ true) × AllTransient next (i + 1) n

-- How a run of the loop from `s` with `left` rounds ended after `extra` calls.
pub record Ends (next : ℕ → Outcome) (left : ℕ) (s r : Attempts) : Type 0 where
  pub extra : ℕ
  pub made : r.calls ≡ s.calls + suc extra
  pub bounded : suc extra ≤ left
  pub last : r.outcome ≡ next (s.calls + extra)
  pub before : AllTransient next s.calls extra
  pub why : (is_transient_error r.outcome ≡ false) ⊎ (suc extra ≡ left)

module _ (next : ℕ → Outcome) (backoff : Int64) where
  step_done :
      (left attempt : ℕ) (s : Attempts)
      → is_transient_error (next s.calls) ≡ false
      → counted_loop next backoff (suc left) attempt s ≡ attempt_once next backoff attempt s
  step_done left attempt s e = unfold counted_loop in rw e

  step_more :
      (left attempt : ℕ) (s : Attempts)
      → is_transient_error (next s.calls) ≡ true
      → counted_loop next backoff (suc left) attempt s
        ≡ counted_loop next backoff left (attempt + 1) (attempt_once next backoff attempt s)
  step_more left attempt s e = unfold counted_loop in rw e

  Ends-done :
      (left attempt : ℕ) (s : Attempts)
      → (is_transient_error (next s.calls) ≡ false) ⊎ (left ≡ 0)
      → Ends next (suc left) s (attempt_once next backoff attempt s)
  unfolding AllTransient
  Ends-done left attempt s why = record {
    extra = 0;
    made = omega arith;
    bounded = omega arith;
    last = ap next (omega arith);
    before = tt;
    why = stopped why;
  }
    where
      stopped :
          (is_transient_error (next s.calls) ≡ false) ⊎ (left ≡ 0)
          → (is_transient_error (next s.calls) ≡ false) ⊎ (1 ≡ suc left)
      stopped (inl e) = inl e
      stopped (inr e) = inr (omega arith)

  Ends-more :
      (left attempt : ℕ) (s r : Attempts)
      → is_transient_error (next s.calls) ≡ true
      → Ends next left (attempt_once next backoff attempt s) r
      → Ends next (suc left) s r
  unfolding AllTransient
  Ends-more left attempt s r e h = record {
    extra = suc h.extra;
    made = omega (arith, h.made);
    bounded = omega (arith, h.bounded);
    last = h.last ∙ ap next (omega arith);
    before = (e, h.before);
    why = later h.why;
  }
    where
      later :
          (is_transient_error r.outcome ≡ false) ⊎ (suc h.extra ≡ left)
          → (is_transient_error r.outcome ≡ false) ⊎ (suc (suc h.extra) ≡ suc left)
      later (inl d) = inl d
      later (inr d) = inr (omega arith)

  counted_loop-Ends :
      (left attempt : ℕ) (s : Attempts)
      → Ends next (suc left) s (counted_loop next backoff (suc left) attempt s)
  counted_loop-Ends zero attempt s = elim (Bool-cases (is_transient_error (next s.calls))) [
    | inr e ↦ rw (step_done 0 attempt s e) (Ends-done 0 attempt s (inl e))
    | inl e ↦ rw (step_more 0 attempt s e) (unfold counted_loop in Ends-done 0 attempt s (inr refl))
  ]
  counted_loop-Ends (suc left) attempt s = elim (Bool-cases (is_transient_error (next s.calls))) [
    | inr e ↦ rw (step_done (suc left) attempt s e) (Ends-done (suc left) attempt s (inl e))
    | inl e ↦ rw (step_more (suc left) attempt s e) (
        Ends-more (suc left) attempt s _ e
          (counted_loop-Ends left (attempt + 1) (attempt_once next backoff attempt s)))
  ]

  counted_step :
      (left attempt : ℕ) (s : Attempts)
      → (if is_transient_error (next s.calls)
          then counted_loop next backoff left (attempt + 1) (attempt_once next backoff attempt s)
          else attempt_once next backoff attempt s)
        ≡ counted_loop next backoff (suc left) attempt s
  unfolding counted_loop
  counted_step left attempt s = refl

  -- One test of the condition.
  step_while :
      (retries : Int64) (fuel attempt : ℕ) (s : Attempts) (r : Attempts)
      → sle attempt retries ≡ true
      → retry_loop next backoff retries fuel (add attempt 1) (attempt_once next backoff attempt s)
        ≡ r
      → retry_loop next backoff retries (suc fuel) attempt s
        ≡ (if is_transient_error (next s.calls) then r else attempt_once next backoff attempt s)
  step_while retries fuel attempt s r e h = unfold retry_loop in rw (e, h) refl

  -- Below the largest `int`, the condition counts the rounds, however much fuel is left at the end.
  while-counted :
      (retries : Int64) (left fuel attempt : ℕ) (s : Attempts)
      → suc retries < half_word
      → attempt + left ≡ suc retries
      → left ≤ fuel
      → retry_loop next backoff retries fuel attempt s ≡ counted_loop next backoff left attempt s
  while-counted retries zero zero attempt s small e h = unfold retry_loop counted_loop in refl
  while-counted retries zero (suc fuel) attempt s small e h =
      let over : sle attempt retries ≡ false = ground (arith, small, e) in
      unfold retry_loop counted_loop in rw over refl
  while-counted retries (suc left) zero attempt s small e h = absurd (omega arith)
  while-counted retries (suc left) (suc fuel) attempt s small e h =
      let under : sle attempt retries ≡ true = ground (arith, small, e) in
      let exact : add attempt 1 ≡ attempt + 1 = ground (arith, small, e) in
      let s' = attempt_once next backoff attempt s in
      let rest =
        ap (λ a. retry_loop next backoff retries fuel a s') exact
        ∙ while-counted retries left fuel (attempt + 1) s' small (omega (arith, e))
            (omega (arith, h)) in
      step_while retries fuel attempt s _ under rest ∙ counted_step left attempt s

  executed-counted :
      (retries : Int64)
      → suc retries < half_word
      → execute_with_retry next retries backoff ≡ counted_loop next backoff (suc retries) 0 none_yet
  unfolding execute_with_retry
  executed-counted retries small =
      let signed : is_negative retries ≡ false = ground (arith, small) in
      rw signed (
        while-counted retries (suc retries) (suc retries) 0 none_yet small (omega arith)
          (omega arith))

  -- With `retries` not negative and not the largest `int`, the transport is called at least once and
  -- at most `retries + 1` times, the outcome is that of the last call, each call before it was
  -- transient, and the loop stopped because the outcome is not transient or because the calls are
  -- used up; more fuel than `retries` does not change the result.
  pub execute_with_retry-Ends :
      (retries : Int64) (fuel : ℕ)
      → suc retries < half_word
      → retries < fuel
      → (retry_loop next backoff retries fuel 0 none_yet ≡ execute_with_retry next retries backoff)
        × Ends next (suc retries) none_yet (execute_with_retry next retries backoff)
  execute_with_retry-Ends retries fuel small enough =
      let counted = executed-counted retries small in
      (
        while-counted retries (suc retries) fuel 0 none_yet small (omega arith)
              (omega (arith, enough))
            ∙ sym counted,
        subst (Ends next (suc retries) none_yet) (sym counted)
            (counted_loop-Ends retries 0 none_yet),
      )

-- backoff, 2 * backoff, 4 * backoff, …: `n` sleeps from the `k`-th on.
pub doubling : Int64 → ℕ → ℕ → List Int64
doubling backoff k zero = []
doubling backoff k (suc n) = mul backoff (2 ^ k % word) ∷ doubling backoff (k + 1) n

sleeps_from :
    (next : ℕ → Outcome) (backoff : Int64) (left k : ℕ) (s : Attempts)
    → suc k + left < half_word
    → let r = counted_loop next backoff left (suc k) s in
      (n : ℕ) × (r.calls ≡ s.calls + n) × (r.sleeps ≡ s.sleeps ++ doubling backoff k n)
unfolding doubling
sleeps_from next backoff zero k s small =
    (0, unfold counted_loop in omega arith, unfold counted_loop in sym (append-nil s.sleeps))
sleeps_from next backoff (suc left) k s small =
    elim (Bool-cases (is_transient_error (next s.calls))) [
      | inr e ↦ rw (step_done next backoff left (suc k) s e) (1, refl, slept)
      | inl e ↦
          let s' = attempt_once next backoff (suc k) s in
          let (n, calls, sleeps) =
            sleeps_from next backoff left (suc k) s' (omega (arith, small)) in
          rw (step_more next backoff left (suc k) s e, add-one (suc k))
            (
              suc n,
              omega (arith, calls),
              sleeps
                  ∙ ap (λ (l : List Int64). l ++ doubling backoff (suc k) n) slept
                  ∙ append_assoc s.sleeps (doubling backoff k 1) (doubling backoff (suc k) n)
                  ∙ ap (λ (j : ℕ). s.sleeps ++ (mul backoff (2 ^ k % word) ∷ doubling backoff j n))
                      (omega arith),
            )
    ]
  where
    less : suc k - 1 ≡ k
    less = omega arith

    positive : slt 0 (suc k) ≡ true
    positive = ground (arith, small)

    slept : (attempt_once next backoff (suc k) s).sleeps ≡ s.sleeps ++ doubling backoff k 1
    slept = rw positive (
        unfold calculate_backoff in
        ap (λ (j : ℕ). s.sleeps ++ mul backoff (2 ^ j % word) ∷ []) less)

-- The loop sleeps once before each call but the first, and the sleeps double from `backoff` on, as
-- 64-bit numbers; with `retries` not negative and not the largest `int`.
pub sleeps_double :
    (next : ℕ → Outcome) (backoff retries : Int64)
    → suc retries < half_word
    → let r = execute_with_retry next retries backoff in r.sleeps ≡ doubling backoff 0 (r.calls - 1)
unfolding doubling
sleeps_double next backoff retries small =
    subst (λ r. r.sleeps ≡ doubling backoff 0 (r.calls - 1))
      (sym (executed-counted next backoff retries small)) counted
  where
    counted :
        let r = counted_loop next backoff (suc retries) 0 none_yet in
        r.sleeps ≡ doubling backoff 0 (r.calls - 1)
    counted = elim (Bool-cases (is_transient_error (next 0))) [
      | inr e ↦ rw (step_done next backoff retries 0 none_yet e) refl
      | inl e ↦
          let (n, calls, sleeps) =
            sleeps_from next backoff retries 0 (attempt_once next backoff 0 none_yet)
              (omega (arith, small)) in
          rw (step_more next backoff retries 0 none_yet e)
            (sleeps ∙ ap (doubling backoff 0) (omega (arith, calls)))
    ]

-- A first answer that is not transient ends the loop.
pub execute_with_retry_once :
    (next : ℕ → Outcome) (backoff retries : Int64)
    → is_negative retries ≡ false
    → is_transient_error (next 0) ≡ false
    → execute_with_retry next retries backoff ≡ attempt_once next backoff 0 none_yet
unfolding execute_with_retry retry_loop
execute_with_retry_once next backoff retries h e =
    let tested : sle 0 retries ≡ true = ground (arith, h) in rw (h, tested, e) refl
