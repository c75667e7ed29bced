-- ===== src/Prelude/Int64.antt =====
-- Go's signed 64-bit integers (`int`, `int64`, `time.Duration`) as bit patterns below 2 ^ 64: sums
-- and products wrap, and an order or a sign is read in two's complement.
use Prim.Native.Nat.{ℕ, ◌+◌, ◌-◌, ◌*◌, ◌/◌, ◌%◌, ◌^◌}
use mathlib.Core.Bool.{Bool}
use orkai_observability.Prelude.Tests.{ltb, leb, if◌then◌else◌}

abbrev pub Int64 : Type 0
Int64 = ℕ

abbrev pub word : ℕ
word = 2 ^ 64

abbrev pub half_word : ℕ
half_word = 2 ^ 63

abbrev pub add : Int64 → Int64 → Int64
add a b = (a + b) % word

abbrev pub sub : Int64 → Int64 → Int64
sub a b = (a + word - b) % word

abbrev pub mul : Int64 → Int64 → Int64
mul a b = a * b % word

-- The place of a bit pattern in the signed order.
abbrev pub rank : Int64 → ℕ
rank a = (a + half_word) % word

-- `a < b` and `a <= b` on signed integers.
abbrev pub slt : Int64 → Int64 → Bool
slt a b = ltb (rank a) (rank b)

abbrev pub sle : Int64 → Int64 → Bool
sle a b = leb (rank a) (rank b)

abbrev pub is_negative : Int64 → Bool
is_negative a = leb half_word a

-- The magnitude of a negative bit pattern.
abbrev pub magnitude : Int64 → ℕ
magnitude a = if is_negative a then word - a else a

-- `a / k` for a positive constant `k`: rounded towards zero.
abbrev pub div : Int64 → ℕ → Int64
div a k = if is_negative a then (word - (word - a) / k) % word else a / k
