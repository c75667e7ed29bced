-- ===== src/Text/Equality.antt =====
-- `text_eq` decides equality of texts.
use orkai_observability.Prelude.{◌≡◌, refl, ◌↔◌, true, [], ◌∷◌, arith}
use orkai_observability.Text.{Text, text_eq}

eq_of-text_eq : (s t : Text) → text_eq s t ≡ true → s ≡ t
unfolding text_eq
eq_of-text_eq [] [] h = refl
eq_of-text_eq [] (y ∷ ys) h = cc
eq_of-text_eq (x ∷ xs) [] h = cc
eq_of-text_eq (x ∷ xs) (y ∷ ys) h = ground (arith, eq_of-text_eq xs ys)

pub text_eq_refl : (s : Text) → text_eq s s ≡ true
unfolding text_eq
text_eq_refl [] = refl
text_eq_refl (x ∷ xs) = ground (arith, text_eq_refl xs)

pub text_eq_iff : (s t : Text) → (text_eq s t ≡ true) ↔ (s ≡ t)
text_eq_iff s t = (eq_of-text_eq s t, λ e. rw e (text_eq_refl t))
