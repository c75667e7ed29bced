-- ===== src/Context/Laws.antt =====
-- observability/context.go: the values of a context, written and read.
use orkai_observability.Context.{
  Context, baggage_from_context, baggage_value, context_with_baggage, context_with_trace_id,
  trace_id_from_context, trace_id_value,
}
use orkai_observability.Prelude.{Option, [], arith, none, some, ◌∷◌, ◌≡◌, ◌≢◌}
use orkai_observability.Table.{Table}
use orkai_observability.Text.{Text}
use orkai_observability.Text.Equality.{text_eq_iff}

-- For every context without a valid OpenTelemetry span, a trace ID and a baggage that are put into
-- it one after the other are both read back, if they are not empty: neither hides the other.
pub context_round_trip :
    (otel : Context → Option Text) (ctx : Context) (id : Text) (kv : Text × Text) (b : Table Text)
    → id ≢ []
    → otel (context_with_baggage (context_with_trace_id ctx id) (kv ∷ b)) ≡ none
    → let ctx' = context_with_baggage (context_with_trace_id ctx id) (kv ∷ b) in
      (trace_id_from_context otel (some ctx') ≡ id) × (baggage_from_context (some ctx') ≡ kv ∷ b)
unfolding context_with_trace_id context_with_baggage trace_id_from_context baggage_from_context
    trace_id_value baggage_value
context_round_trip otel ctx id kv b ne h = ground (arith, text_eq_iff id [])
