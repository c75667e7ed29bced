-- ===== src/Text/Split.antt =====
-- Splitting a text at a byte, and joining the parts again.
use orkai_observability.Prelude.{
  ℕ, ◌≡◌, refl, ap, ◌≢◌, none, some, List, [], ◌∷◌, ◌++◌, arith, All, ◌==◌, Bool-cases, inl, inr,
}
use orkai_observability.Text.{Text, cut_at, split, join}

-- The text holds no `c`.
abbrev pub Lacks : ℕ → Text → Type 0
Lacks c s = All (λ x. x ≢ c) s

pub cut_at-append : (c : ℕ) (s t : Text) → Lacks c s → cut_at c (s ++ c ∷ t) ≡ (s, some t)
unfolding cut_at
cut_at-append c [] t h = ground arith
cut_at-append c (x ∷ s) t h = ground (arith, cut_at-append c s t h.1)

pub cut_at_missing : (c : ℕ) (s : Text) → Lacks c s → cut_at c s ≡ (s, none)
unfolding cut_at
cut_at_missing c [] h = refl
cut_at_missing c (x ∷ s) h = ground (arith, cut_at_missing c s h.1)

pub split-append : (c : ℕ) (s t : Text) → Lacks c s → split (s ++ c ∷ t) c ≡ s ∷ split t c
unfolding split
split-append c [] t h = ground arith
split-append c (x ∷ s) t h = ground (arith, split-append c s t h.1)

pub split_missing : (c : ℕ) (s : Text) → Lacks c s → split s c ≡ s ∷ []
unfolding split
split_missing c [] h = refl
split_missing c (x ∷ s) h = ground (arith, split_missing c s h.1)

-- Splitting a join gives the parts back, if there is a part and none holds the separator.
pub split-join :
    (c : ℕ) (p : Text) (ps : List Text)
    → All (Lacks c) (p ∷ ps)
    → split (join (p ∷ ps) (c ∷ [])) c ≡ p ∷ ps
unfolding join
split-join c p [] h = split_missing c p h.0
split-join c p (q ∷ ps) h =
    rw (split-append c p (join (q ∷ ps) (c ∷ [])) h.0) (ap (◌∷◌ p) (split-join c q ps h.1))

-- A split has at least one part.
pub split_cases : (c : ℕ) (s : Text) → (q : Text) × (qs : List Text) × (split s c ≡ q ∷ qs)
unfolding split
split_cases c [] = ([], [], refl)
split_cases c (x ∷ s) =
    let (q, qs, e) = split_cases c s in
    elim (Bool-cases (x == c)) [
      | inl here ↦ ([], split s c, rw here refl)
      | inr there ↦ (x ∷ q, qs, rw (there, e) refl)
    ]
