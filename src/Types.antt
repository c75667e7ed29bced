-- ===== src/Types.antt =====
-- observability/types.go: log fields and spans. Times are readings of the monotonic clock in
-- nanoseconds, and a duration is a 64-bit integer.
use orkai_observability.Prelude.{◌-◌, Bool, [], if◌then◌else◌, false, leb, min, true, ℕ}
use orkai_observability.Prelude.Int64.{Int64, half_word, word}
use orkai_observability.Text.{Text}

-- The attributes of a log entry: `Field` of types.go.
pub record Field : Type 0 where
  pub key : Text
  pub str_value : Text
  pub int_value : Int64
  pub is_int : Bool

pub record Span : Type 0 where
  pub trace_id : Text
  pub name : Text
  pub start_time : ℕ

abbrev pub empty_span : Span
empty_span = record { trace_id = []; name = []; start_time = 0 }

unfoldable pub new_string_field : Text → Text → Field
new_string_field key value = record { key = key; str_value = value; int_value = 0; is_int = false }

unfoldable pub new_int_field : Text → Int64 → Field
new_int_field key value = record { key = key; str_value = []; int_value = value; is_int = true }

-- `now.Sub(t)`, which saturates.
unfoldable pub since : ℕ → ℕ → Int64
since now t = if leb t now then min (now - t) (half_word - 1) else word - min (t - now) half_word
