-- ===== src/Logger/Format/Json.antt =====
-- A reader of JSON objects, to describe the lines of observability/logger.go from outside: the members of
-- one object whose values are ASCII strings without escapes and integers, byte by byte. It reads no
-- text that is not JSON.
use orkai_observability.Prelude.{
  ◌&&◌, ◌++◌, ◌==◌, Bool, List, Option, [], if◌then◌else◌, leb, ltb, none, not, some, ℕ, ◌∷◌,
}
use orkai_observability.Text.{Text}

pub data Value : Type 0 where
  text number : Text → Value

abbrev pub Member : Type 0
Member = Text × Value

-- Where the reader stands, with the members before, and the key and the value so far.
pub data State : Type 0 where
  opening : State
  before_key : List Member → State
  in_key after_key before_value after_minus : List Member → Text → State
  in_text in_number after_zero : List Member → Text → Text → State
  after_value closed ended : List Member → State
  failed : State

-- An ASCII byte that stands for itself in a string.
abbrev pub is_plain : ℕ → Bool
is_plain c = leb 32 c && ltb c 128 && (not (c == b'"') && not (c == b'\\'))

abbrev pub is_digit : ℕ → Bool
is_digit c = leb b'0' c && leb c b'9'

abbrev pub step_end : List Member → ℕ → State
step_end ms c = if c == b',' then before_key ms else if c == b'}' then closed ms else failed

-- A 0 is not followed by another digit.
abbrev pub first_digit : List Member → Text → Text → ℕ → State
first_digit ms k sign c =
    if c == b'0'
    then after_zero ms k (sign ++ c ∷ [])
    else if is_digit c
    then in_number ms k (sign ++ c ∷ [])
    else failed

abbrev pub step : State → ℕ → State
step opening c = if c == b'{' then before_key [] else failed
step (before_key ms) c = if c == b'"' then in_key ms [] else failed
step (in_key ms k) c =
    if c == b'"' then after_key ms k else if is_plain c then in_key ms (k ++ c ∷ []) else failed
step (after_key ms k) c = if c == b':' then before_value ms k else failed
step (before_value ms k) c =
    if c == b'"'
    then in_text ms k []
    else if c == b'-'
    then after_minus ms k
    else first_digit ms k [] c
step (after_minus ms k) c = first_digit ms k (b'-' ∷ []) c
step (in_text ms k v) c =
    if c == b'"'
    then after_value (ms ++ (k, text v) ∷ [])
    else if is_plain c
    then in_text ms k (v ++ c ∷ [])
    else failed
step (in_number ms k v) c =
    if is_digit c then in_number ms k (v ++ c ∷ []) else step_end (ms ++ (k, number v) ∷ []) c
step (after_zero ms k v) c = step_end (ms ++ (k, number v) ∷ []) c
step (after_value ms) c = step_end ms c
step (closed ms) c = if c == 10 then ended ms else failed
step (ended ms) c = failed
step failed c = failed

abbrev pub scan : State → Text → State
scan s [] = s
scan s (c ∷ cs) = scan (step s c) cs

abbrev pub members_of : State → Option (List Member)
members_of (ended ms) = some ms
members_of _ = none

-- The members of the object, if the text is one object and one line end.
unfoldable pub read : Text → Option (List Member)
read t = members_of (scan opening t)
