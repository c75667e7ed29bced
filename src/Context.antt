-- ===== src/Context.antt =====
-- observability/context.go: trace IDs and baggage in a `context.Context`. A context is a chain of
-- values; `foreign` is a link that other packages add, of which the program reads nothing itself.
pub mod Laws
mod Tests
use orkai_observability.Prelude.{Option, [], if◌then◌else◌, none, some, ℕ, ◌∷◌}
use orkai_observability.Table.{Table, or_zero}
use orkai_observability.Text.{Text, text_eq}

pub data Context : Type 0 where
  background : Context
  with_trace_id : Context → Text → Context
  with_baggage : Context → Table Text → Context
  foreign : Context → ℕ → Context

-- ctx.Value(traceIDKey)
unfoldable pub trace_id_value : Context → Option Text
trace_id_value background = none
trace_id_value (with_trace_id ctx id) = some id
trace_id_value (with_baggage ctx b) = trace_id_value ctx
trace_id_value (foreign ctx n) = trace_id_value ctx

-- ctx.Value(baggageKey)
unfoldable pub baggage_value : Context → Option (Table Text)
baggage_value background = none
baggage_value (with_trace_id ctx id) = baggage_value ctx
baggage_value (with_baggage ctx b) = some b
baggage_value (foreign ctx n) = baggage_value ctx

unfoldable pub context_with_trace_id : Context → Text → Context
context_with_trace_id ctx trace_id = if text_eq trace_id [] then ctx else with_trace_id ctx trace_id

unfoldable pub context_with_baggage : Context → Table Text → Context
context_with_baggage ctx [] = ctx
context_with_baggage ctx (kv ∷ b) = with_baggage ctx (kv ∷ b)

-- `otel ctx` is the trace ID of the OpenTelemetry span of the context, if there is one with a valid
-- span context; a nil context is `none`.
unfoldable pub trace_id_from_context : (Context → Option Text) → Option Context → Text
trace_id_from_context otel none = []
trace_id_from_context otel (some ctx) = elim (otel ctx) [
  | some id ↦ id
  | none ↦ or_zero [] (trace_id_value ctx)
]

unfoldable pub baggage_from_context : Option Context → Table Text
baggage_from_context none = []
baggage_from_context (some ctx) = or_zero [] (baggage_value ctx)
