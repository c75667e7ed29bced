-- ===== src/Text/Decimal.antt =====
-- strconv.FormatInt(n, 10) and strconv.Itoa.
use mathlib.Core.Logic.{dite}
use mathlib.Core.WellFounded.{Acc, WellFounded}
use native.Mathlib.Decide.{dec_lt}
use orkai_observability.Prelude.{
  ℕ, zero, suc, ◌+◌, ◌-◌, ◌/◌, ◌%◌, ◌<◌, ◌≡◌, refl, [], ◌∷◌, arith, ◌==◌, if◌then◌else◌, All, ◌≤◌,
  Bool-cases, inl, inr, ap, ◌⊎◌, length, ◌^◌,
}
use orkai_observability.Prelude.Int64.{Int64, is_negative, magnitude, word}
use orkai_observability.Text.{Text, codes}

Acc-below : (k n : ℕ) → n < k → Acc ◌<◌ n
Acc-below zero n h = elim h [ ]
Acc-below (suc k) n h = Acc.intro n (λ m hm. Acc-below k m (omega arith))

lt_wf : WellFounded ◌<◌
unfolding Acc-below
lt_wf = record { apply = λ n. Acc-below (suc n) n (omega arith) }

tenth-lt : (n : ℕ) → 0 < n → n / 10 < n
tenth-lt n h = omega arith

digits_acc : (n : ℕ) → Acc ◌<◌ n → Text → Text
digits_acc n (Acc.intro _ smaller) out =
    dite (dec_lt 0 n)
      (λ h. digits_acc (n / 10) (smaller (n / 10) (tenth-lt n h)) ((b'0' + n % 10) ∷ out))
      (λ _. out)

unfoldable pub format_nat : ℕ → Text
unfolding digits_acc lt_wf dec_lt tenth-lt
format_nat n = if n == 0 then b'0' ∷ [] else digits_acc n (lt_wf.apply n) []

unfoldable pub format_int : Int64 → Text
unfolding format_nat
format_int n = if is_negative n then b'-' ∷ format_nat (magnitude n) else format_nat n

format_int_runs : format_int (word - 120) ≡ codes "-120"
unfolding format_int
format_int_runs = refl

-- The bytes of decimal digits.
abbrev pub IsDigits : Text → Type 0
IsDigits = All (λ c. (48 ≤ c) × (c ≤ 57))

-- Digits that start with another digit than 0.
abbrev pub Leads : Text → Type 0
Leads t = (d : ℕ) × (ds : Text) × (t ≡ d ∷ ds) × (49 ≤ d) × (d ≤ 57) × IsDigits ds

digits_acc-none : (n : ℕ) (a : Acc ◌<◌ n) (out : Text) → n ≡ 0 → digits_acc n a out ≡ out
unfolding digits_acc
digits_acc-none n (Acc.intro _ smaller) out h = chosen (dec_lt 0 n)
  where
    more : (0 < n) → Text
    more p = digits_acc (n / 10) (smaller (n / 10) (tenth-lt n p)) ((b'0' + n % 10) ∷ out)

    chosen : (d : Dec (0 < n)) → dite d more (λ _. out) ≡ out
    chosen (yes p) = absurd (omega arith)
    chosen (no p) = refl

digits_acc-Leads :
    (n : ℕ) (a : Acc ◌<◌ n) (out : Text) → 0 < n → IsDigits out → Leads (digits_acc n a out)
unfolding digits_acc
digits_acc-Leads n (Acc.intro _ smaller) out pos h = chosen (dec_lt 0 n) (λ p q.
    digits_acc-Leads (n / 10) (smaller (n / 10) (tenth-lt n p)) ((b'0' + n % 10) ∷ out) q
      ((omega arith, omega arith), h))
  where
    more : (0 < n) → Text
    more p = digits_acc (n / 10) (smaller (n / 10) (tenth-lt n p)) ((b'0' + n % 10) ∷ out)

    -- The last digit is the first one where no other is left.
    last : (p : 0 < n) → Dec (0 < n / 10) → (0 < n / 10 → Leads (more p)) → Leads (more p)
    last p (yes q) rest = rest q
    last p (no q) rest =
        let none_left : n / 10 ≡ 0 = omega (arith, q) in
        (
          b'0' + n % 10,
          out,
          digits_acc-none (n / 10) (smaller (n / 10) (tenth-lt n p)) ((b'0' + n % 10) ∷ out)
              none_left,
          omega (arith, none_left, p),
          omega arith,
          h,
        )

    chosen :
        (d : Dec (0 < n))
        → ((p : 0 < n) → 0 < n / 10 → Leads (more p))
        → Leads (dite d more (λ _. out))
    chosen (yes p) rest = last p (dec_lt 0 (n / 10)) (rest p)
    chosen (no p) rest = absurd (p pos)

-- The digits of 0 are one 0, and those of another number start with another digit.
pub format_nat-Leads : (n : ℕ) → (format_nat n ≡ b'0' ∷ []) ⊎ Leads (format_nat n)
unfolding format_nat
format_nat-Leads n = elim (Bool-cases (n == 0)) [
  | inl e ↦ inl (rw e refl)
  | inr e ↦ inr (rw e (digits_acc-Leads n (lt_wf.apply n) [] (ground (arith, e)) tt))
]

-- A number below `10 ^ k` has at most `k` digits.
digits_acc-length :
    (k n : ℕ) (a : Acc ◌<◌ n) (out : Text)
    → n < 10 ^ k
    → length (digits_acc n a out) ≤ k + length out
unfolding digits_acc
digits_acc-length zero n a out h = rw (digits_acc-none n a out (omega (arith, h))) (omega arith)
digits_acc-length (suc k) n (Acc.intro _ smaller) out h = chosen (dec_lt 0 n) (λ p.
    digits_acc-length k (n / 10) (smaller (n / 10) (tenth-lt n p)) ((b'0' + n % 10) ∷ out)
      (omega (arith, h)))
  where
    more : (0 < n) → Text
    more p = digits_acc (n / 10) (smaller (n / 10) (tenth-lt n p)) ((b'0' + n % 10) ∷ out)

    chosen :
        (d : Dec (0 < n))
        → ((p : 0 < n) → length (more p) ≤ k + suc (length out))
        → length (dite d more (λ _. out)) ≤ suc k + length out
    chosen (yes p) rest = omega (arith, rest p)
    chosen (no p) rest = omega arith

pub format_nat-length : (n : ℕ) → n ≤ word → length (format_nat n) ≤ 20
unfolding format_nat
format_nat-length n h = elim (Bool-cases (n == 0)) [
  | inl e ↦ rw e (omega arith)
  | inr e ↦ rw e (omega (arith, digits_acc-length 20 n (lt_wf.apply n) [] (omega (arith, h))))
]

-- A number that is negative has its sign before the digits of its magnitude.
pub format_int-cases :
    (n : Int64) → (format_int n ≡ b'-' ∷ format_nat (magnitude n)) ⊎ (format_int n ≡ format_nat n)
unfolding format_int
format_int-cases n = elim (Bool-cases (is_negative n)) [
  | inl e ↦ inl (ap (λ b. if b then b'-' ∷ format_nat (magnitude n) else format_nat n) e)
  | inr e ↦ inr (ap (λ b. if b then b'-' ∷ format_nat (magnitude n) else format_nat n) e)
]

-- A 64-bit number has at most 20 digits and a sign.
pub format_int-length : (n : Int64) → n < word → length (format_int n) ≤ 21
format_int-length n h = elim (format_int-cases n) [
  | inl e ↦ omega (arith, ap length e, format_nat-length (magnitude n) (ground (arith, h)))
  | inr e ↦ omega (arith, ap length e, format_nat-length n (omega (arith, h)))
]
