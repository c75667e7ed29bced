-- ===== src/Text/Order.antt =====
-- The bytewise order of texts is a total order.
use orkai_observability.Prelude.{◌≡◌, refl, true, false, [], ◌∷◌, arith}
use orkai_observability.Text.{Text, text_leb}

pub text_leb_total : (s t : Text) → text_leb s t ≡ false → text_leb t s ≡ true
unfolding text_leb
text_leb_total [] t h = cc
text_leb_total (x ∷ xs) [] h = refl
text_leb_total (x ∷ xs) (y ∷ ys) h = ground (arith, text_leb_total xs ys)

pub text_leb_trans :
    (s t u : Text) → text_leb s t ≡ true → text_leb t u ≡ true → text_leb s u ≡ true
unfolding text_leb
text_leb_trans [] t u h k = refl
text_leb_trans (x ∷ xs) [] u h k = cc
text_leb_trans (x ∷ xs) (y ∷ ys) [] h k = cc
text_leb_trans (x ∷ xs) (y ∷ ys) (z ∷ zs) h k = ground (arith, text_leb_trans xs ys zs)

pub text_leb_antisymm : (s t : Text) → text_leb s t ≡ true → text_leb t s ≡ true → s ≡ t
unfolding text_leb
text_leb_antisymm [] [] h k = refl
text_leb_antisymm [] (y ∷ ys) h k = cc
text_leb_antisymm (x ∷ xs) [] h k = cc
text_leb_antisymm (x ∷ xs) (y ∷ ys) h k = ground (arith, text_leb_antisymm xs ys)
