-- ===== src/Text.antt =====
-- Go strings: sequences of bytes, with the functions of packages `strings` and `strconv` that the
-- program calls. Case and white space are those of ASCII.
pub mod Equality
pub mod Order
pub mod Split
pub mod Decimal
use Prim.Native.Char.{code}
use orkai_observability.Prelude.{
  ℕ, String, ◌+◌, Bool, true, false, ◌&&◌, ◌||◌, Option, none, some, List, [], ◌∷◌, ◌++◌, leb, ltb,
  ◌==◌, if◌then◌else◌,
}

abbrev pub Text : Type 0
Text = List ℕ

-- The code points of a literal: its bytes, since the program's literals are ASCII.
abbrev pub codes : String → Text
codes String.[] = []
codes (String.◌∷◌ c s) = code c ∷ codes s

-- s == t
unfoldable pub text_eq : Text → Text → Bool
text_eq [] [] = true
text_eq [] (y ∷ ys) = false
text_eq (x ∷ xs) [] = false
text_eq (x ∷ xs) (y ∷ ys) = x == y && text_eq xs ys

-- s <= t: bytewise, a prefix first.
unfoldable pub text_leb : Text → Text → Bool
text_leb [] ys = true
text_leb (x ∷ xs) [] = false
text_leb (x ∷ xs) (y ∷ ys) = ltb x y || (x == y && text_leb xs ys)

-- strings.HasPrefix(s, p)
unfoldable pub has_prefix : Text → Text → Bool
has_prefix s [] = true
has_prefix [] (y ∷ p) = false
has_prefix (x ∷ s) (y ∷ p) = x == y && has_prefix s p

-- strings.Contains(s, p)
unfoldable pub contains : Text → Text → Bool
unfolding has_prefix
contains [] p = has_prefix [] p
contains (x ∷ s) p = has_prefix (x ∷ s) p || contains s p

abbrev pub cut_cons : ℕ → Text × Option Text → Text × Option Text
cut_cons x (s, r) = (x ∷ s, r)

-- What stands before the first `c`, and what stands after it if there is one. Both
-- `strings.Index(s, c)` with the slices at that index, and `SplitN(s, c, 2)`, are read off it.
unfoldable pub cut_at : ℕ → Text → Text × Option Text
cut_at c [] = ([], none)
cut_at c (x ∷ s) = if x == c then ([], some s) else cut_cons x (cut_at c s)

abbrev pub first_cons : ℕ → List Text → List Text
first_cons x [] = (x ∷ []) ∷ []
first_cons x (p ∷ ps) = (x ∷ p) ∷ ps

-- strings.Split(s, c)
unfoldable pub split : Text → ℕ → List Text
split [] c = [] ∷ []
split (x ∷ s) c = if x == c then [] ∷ split s c else first_cons x (split s c)

-- strings.Join(parts, sep)
unfoldable pub join : List Text → Text → Text
join [] sep = []
join (p ∷ []) sep = p
join (p ∷ q ∷ ps) sep = p ++ (sep ++ join (q ∷ ps) sep)

unfoldable pub is_space : ℕ → Bool
is_space c = (leb 9 c && leb c 13) || c == 32

unfoldable pub trim_left : Text → Text
unfolding is_space
trim_left [] = []
trim_left (x ∷ s) = if is_space x then trim_left s else x ∷ s

abbrev pub drop_blank : ℕ → Text → Text
drop_blank x [] = if is_space x then [] else x ∷ []
drop_blank x (y ∷ s) = x ∷ y ∷ s

unfoldable pub trim_right : Text → Text
unfolding is_space
trim_right [] = []
trim_right (x ∷ s) = drop_blank x (trim_right s)

-- strings.TrimSpace(s)
unfoldable pub trim_space : Text → Text
unfolding trim_left trim_right
trim_space s = trim_left (trim_right s)

unfoldable pub lower : ℕ → ℕ
lower c = if leb 65 c && leb c 90 then c + 32 else c

-- strings.ToLower(s)
unfoldable pub to_lower : Text → Text
unfolding lower
to_lower [] = []
to_lower (x ∷ s) = lower x ∷ to_lower s
