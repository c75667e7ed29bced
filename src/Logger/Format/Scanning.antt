-- ===== src/Logger/Format/Scanning.antt =====
-- observability/logger.go: a reader of JSON on the texts and the numerals that the JSON format prints.
use orkai_observability.Logger.Format.Json.{
  first_digit, after_zero, Member, State, after_key, after_minus, after_value, before_key,
  before_value, closed, in_key, in_number, in_text, is_digit, is_plain, number, scan, step, text,
  failed,
}
use orkai_observability.Prelude.{
  ◌++◌, ◌==◌, All, any, not, List, [], ap, append-nil, append_assoc, arith, false, if◌then◌else◌,
  inl, inr, refl, subst, sym, true, ℕ, ◌∙◌, ◌∷◌, ◌≡◌, ◌≤◌, ◌⊎◌,
}
use orkai_observability.Prelude.Int64.{Int64, magnitude}
use orkai_observability.Text.{Text}
use orkai_observability.Text.Decimal.{
  Leads, IsDigits, format_int, format_int-cases, format_nat, format_nat-Leads,
}

-- ASCII without a quote, a backslash or a control byte.
abbrev pub IsPlain : Text → Type 0
IsPlain = All (λ c. is_plain c ≡ true)

-- To decide it.
pub all-IsPlain : (t : Text) → any (λ c. not (is_plain c)) t ≡ false → IsPlain t
all-IsPlain [] h = tt
all-IsPlain (c ∷ t) h = (ground (arith, h), all-IsPlain t (ground (arith, h)))

not_quote : (c : ℕ) → is_plain c ≡ true → (c == b'"') ≡ false
not_quote c h = ground arith

-- A plain byte within a string.
kept :
    (c : ℕ) (ends stays : State)
    → is_plain c ≡ true
    → (if c == b'"' then ends else if is_plain c then stays else failed) ≡ stays
kept c ends stays h =
    ap (λ b. if b then ends else if is_plain c then stays else failed) (not_quote c h)
    ∙ ap (λ b. if b then stays else failed) h

pub scan-append : (s : State) (xs ys : Text) → scan s (xs ++ ys) ≡ scan (scan s xs) ys
scan-append s [] ys = refl
scan-append s (x ∷ xs) ys = scan-append (step s x) xs ys

pub text_ends :
    (ms : List Member) (k acc v rest : Text)
    → IsPlain v
    → scan (in_text ms k acc) (v ++ b'"' ∷ rest)
      ≡ scan (after_value (ms ++ (k, text (acc ++ v)) ∷ [])) rest
text_ends ms k acc [] rest h =
    ap (λ t. scan (after_value (ms ++ (k, text t) ∷ [])) rest) (sym (append-nil acc))
text_ends ms k acc (c ∷ v) rest h =
    let stays : step (in_text ms k acc) c ≡ in_text ms k (acc ++ c ∷ []) =
      kept c (after_value (ms ++ (k, text acc) ∷ [])) (in_text ms k (acc ++ c ∷ [])) h.0 in
    ap (λ s. scan s (v ++ b'"' ∷ rest)) stays
    ∙ text_ends ms k (acc ++ c ∷ []) v rest h.1
    ∙ ap (λ t. scan (after_value (ms ++ (k, text t) ∷ [])) rest) (append_assoc acc (c ∷ []) v)

pub key_ends :
    (ms : List Member) (acc k rest : Text)
    → IsPlain k
    → scan (in_key ms acc) (k ++ b'"' ∷ rest) ≡ scan (after_key ms (acc ++ k)) rest
key_ends ms acc [] rest h = ap (λ t. scan (after_key ms t) rest) (sym (append-nil acc))
key_ends ms acc (c ∷ k) rest h =
    let stays : step (in_key ms acc) c ≡ in_key ms (acc ++ c ∷ []) =
      kept c (after_key ms acc) (in_key ms (acc ++ c ∷ [])) h.0 in
    ap (λ s. scan s (k ++ b'"' ∷ rest)) stays
    ∙ key_ends ms (acc ++ c ∷ []) k rest h.1
    ∙ ap (λ t. scan (after_key ms t) rest) (append_assoc acc (c ∷ []) k)

digits_on :
    (ms : List Member) (k acc ds : Text)
    → IsDigits ds
    → scan (in_number ms k acc) ds ≡ in_number ms k (acc ++ ds)
digits_on ms k acc [] h = ap (in_number ms k) (sym (append-nil acc))
digits_on ms k acc (d ∷ ds) h =
    let digit : is_digit d ≡ true = ground (arith, h.0) in
    let stays : step (in_number ms k acc) d ≡ in_number ms k (acc ++ d ∷ []) = rw digit refl in
    ap (λ s. scan s ds) stays
    ∙ digits_on ms k (acc ++ d ∷ []) ds h.1
    ∙ ap (in_number ms k) (append_assoc acc (d ∷ []) ds)

-- A state that takes a comma and a brace as after a value.
pub record IsReady (ms : List Member) (s : State) : Type 0 where
  pub comma : step s b',' ≡ before_key ms
  pub brace : step s b'}' ≡ closed ms

-- A digit where a value begins.
unsigned :
    (ms : List Member) (k : Text) (c : ℕ)
    → b'0' ≤ c
    → c ≤ b'9'
    → step (before_value ms k) c ≡ first_digit ms k [] c
unsigned ms k c low high =
    let not_text : (c == b'"') ≡ false = ground (arith, low) in
    let not_minus : (c == b'-') ≡ false = ground (arith, low) in
    let other : State = first_digit ms k [] c in
    ap (λ b. if b then in_text ms k [] else if c == b'-' then after_minus ms k else other) not_text
    ∙ ap (λ b. if b then after_minus ms k else other) not_minus

-- A numeral, after the sign if there is one.
natural_read :
    (ms : List Member) (k sign t : Text) (s : State)
    → ((c : ℕ) → b'0' ≤ c → c ≤ b'9' → step s c ≡ first_digit ms k sign c)
    → (t ≡ b'0' ∷ []) ⊎ Leads t
    → IsReady (ms ++ (k, number (sign ++ t)) ∷ []) (scan s t)
natural_read ms k sign t s starts (inl e) =
    subst (λ t. IsReady (ms ++ (k, number (sign ++ t)) ∷ []) (scan s t)) (sym e)
      (subst (IsReady (ms ++ (k, number (sign ++ b'0' ∷ [])) ∷ []))
        (sym (starts b'0' (omega arith) (omega arith))) (record { comma = refl; brace = refl }))
natural_read ms k sign t s starts (inr (d, ds, e, low, high, rest)) =
    let not_zero : (d == b'0') ≡ false = ground (arith, low) in
    let digit : is_digit d ≡ true = ground (arith, low, high) in
    let v : Text = sign ++ d ∷ [] in
    let first : step s d ≡ in_number ms k v =
      starts d (omega (arith, low)) high
      ∙ ap (λ b. if b then after_zero ms k v else if is_digit d then in_number ms k v else failed)
          not_zero
      ∙ ap (λ b. if b then in_number ms k v else failed) digit in
    let all : scan s (d ∷ ds) ≡ in_number ms k (sign ++ d ∷ ds) =
      ap (λ x. scan x ds) first
      ∙ digits_on ms k v ds rest
      ∙ ap (in_number ms k) (append_assoc sign (d ∷ []) ds) in
    subst (λ t. IsReady (ms ++ (k, number (sign ++ t)) ∷ []) (scan s t)) (sym e)
      (subst (IsReady (ms ++ (k, number (sign ++ d ∷ ds)) ∷ [])) (sym all)
        (record { comma = refl; brace = refl }))

pub integer_read :
    (ms : List Member) (k : Text) (n : Int64)
    → IsReady (ms ++ (k, number (format_int n)) ∷ []) (scan (before_value ms k) (format_int n))
integer_read ms k n = elim (format_int-cases n) [
  | inl e ↦
      subst (λ t. IsReady (ms ++ (k, number t) ∷ []) (scan (before_value ms k) t)) (sym e)
        (natural_read ms k (b'-' ∷ []) (format_nat (magnitude n)) (after_minus ms k)
          (λ c low high. refl) (format_nat-Leads (magnitude n)))
  | inr e ↦
      subst (λ t. IsReady (ms ++ (k, number t) ∷ []) (scan (before_value ms k) t)) (sym e)
        (natural_read ms k [] (format_nat n) (before_value ms k) (unsigned ms k)
          (format_nat-Leads n))
]
