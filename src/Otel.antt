-- ===== src/Otel.antt =====
-- observability/otel_bridge.go: the bridge to OpenTelemetry. The SDK is not defined by the program:
-- its meter is a function that gives an instrument or an error, what is recorded with an instrument
-- is the list of the calls, and a span of the SDK is its number.
pub mod Metering
pub mod Tracing
mod Tests
use orkai_observability.Metrics.Store
use orkai_observability.Context.{Context}
use orkai_observability.Float64.{Float64}
use orkai_observability.Metrics.Store.{InMemoryMetrics, gauges, milliseconds}
use orkai_observability.Prelude.{
  ◌++◌, ◌-◌, List, Option, [], if◌then◌else◌, get_elem?, length, ltb, none, some, take, ℕ, ◌∷◌,
}
use orkai_observability.Prelude.Int64.{Int64}
use orkai_observability.Table.{Table, at, insert, lookup, or_zero}
use orkai_observability.Text.{Text, codes}
use orkai_observability.Tracer.{pop_active_trace_id, push_active_trace_id}
use orkai_observability.Types.{Span}

pub record OtelTracer : Type 0 where
  -- `o.spans`: the open spans of a key, the innermost last
  pub spans : Table (List ℕ)
  -- the spans on which `End` was called
  pub ended : List ℕ
  pub trace_stack : List Text

unfoldable pub span_key : Text → Text → Text
span_key trace_id name = trace_id ++ (codes "#" ++ name)

-- `trace_id` and `otel_span` are what the SDK's `Start` gives, `new_ctx` its context.
unfoldable pub start_trace :
    Context → Text → ℕ → ℕ → Text → OtelTracer → (Context × Span) × OtelTracer
unfolding push_active_trace_id span_key
start_trace new_ctx trace_id otel_span now name o =
    let span : Span = record { trace_id = trace_id; name = name; start_time = now } in
    let key = span_key trace_id name in
    (
      (new_ctx, span),
      record o {
        trace_stack = push_active_trace_id trace_id o.trace_stack;
        spans = insert key (at [] key o.spans ++ otel_span ∷ []) o.spans;
      },
    )

abbrev pub last_or_zero : Option ℕ → ℕ
last_or_zero o = or_zero 0 o

unfoldable pub end_trace : Span → OtelTracer → OtelTracer
unfolding pop_active_trace_id span_key
end_trace span o =
    let key = span_key span.trace_id span.name in
    let stack = at [] key o.spans in
    if ltb 0 (length stack)
    then record o {
      spans = insert key (take (length stack - 1) stack) o.spans;
      ended = o.ended ++ last_or_zero (get_elem? stack (length stack - 1)) ∷ [];
      trace_stack = pop_active_trace_id o.trace_stack;
    }
    else o

-- One measurement that is handed to the SDK: the instrument, the value, the attributes.
pub record Measurement (F : Type 0) : Type 0 where
  pub instrument : ℕ
  pub value : F
  pub attributes : Table Text

pub record OtelMetrics (F : Type 0) : Type 0 where
  pub local : InMemoryMetrics F
  pub counters : Table ℕ
  pub histograms : Table ℕ
  pub gauges : Table ℕ
  pub sent : List (Measurement F)

-- c, exists := m[name]; if !exists { c, err = …; if err == nil { m[name] = c } }: the instrument if
-- there is one, and the map.
abbrev pub instrument : (Text → Option ℕ) → Text → Table ℕ → Option ℕ → Option ℕ × Table ℕ
instrument meter name m (some c) = (some c, m)
instrument meter name m none = elim (meter name) [
  | none ↦ (none, m)
  | some c ↦ (some c, insert name c m)
]

module _ {F : Type 0} where
  abbrev pub measure : Option ℕ → F → Table Text → List (Measurement F) → List (Measurement F)
  measure none v labels sent = sent
  measure (some c) v labels sent =
      sent ++ record { instrument = c; value = v; attributes = labels } ∷ []

  -- `one` is the increment as the SDK receives it.
  unfoldable pub inc_counter_with_labels :
      (Text → Option ℕ) → F → Text → Table Text → OtelMetrics F → OtelMetrics F
  unfolding Store.inc_counter_with_labels
  inc_counter_with_labels meter one name labels o =
      let (c, m) = instrument meter name o.counters (lookup name o.counters) in
      record o {
        local = Store.inc_counter_with_labels name labels o.local;
        counters = m;
        sent = measure c one labels o.sent;
      }

  unfoldable pub inc_counter : (Text → Option ℕ) → F → Text → OtelMetrics F → OtelMetrics F
  unfolding Store.inc_counter inc_counter_with_labels
  inc_counter meter one name o =
      inc_counter_with_labels meter one name []
        (record o { local = Store.inc_counter name o.local })

  unfoldable pub set_gauge_with_labels :
      (Text → Option ℕ) → Text → F → Table Text → OtelMetrics F → OtelMetrics F
  unfolding Store.set_gauge_with_labels
  set_gauge_with_labels meter name value labels o =
      let (g, m) = instrument meter name o.gauges (lookup name o.gauges) in
      record o {
        local = Store.set_gauge_with_labels name value labels o.local;
        gauges = m;
        sent = measure g value labels o.sent;
      }

  unfoldable pub set_gauge : (Text → Option ℕ) → Text → F → OtelMetrics F → OtelMetrics F
  unfolding Store.set_gauge set_gauge_with_labels
  set_gauge meter name value o =
      set_gauge_with_labels meter name value []
        (record o { local = Store.set_gauge name value o.local })

module _ {F : Type 0} ⦃f : Float64 F⦄ where
  abbrev pub record_measured :
      (Text → Option ℕ)
      → Text
      → Int64
      → Table Text
      → OtelMetrics F
      → Option (InMemoryMetrics F)
      → Option (OtelMetrics F)
  record_measured meter name duration labels o none = none
  record_measured meter name duration labels o (some local) =
      let (h, m) = instrument meter name o.histograms (lookup name o.histograms) in
      some (record o {
        local = local;
        histograms = m;
        sent = measure h (f.of_int (milliseconds duration)) labels o.sent;
      })

  unfoldable pub record_latency_with_labels :
      (Text → Option ℕ) → Text → Int64 → Table Text → OtelMetrics F → Option (OtelMetrics F)
  record_latency_with_labels meter name duration labels o =
      record_measured meter name duration labels o
        (Store.record_latency_with_labels name duration labels o.local)

  abbrev pub record_again :
      (Text → Option ℕ)
      → Text
      → Int64
      → OtelMetrics F
      → Option (InMemoryMetrics F)
      → Option (OtelMetrics F)
  record_again meter name duration o none = none
  record_again meter name duration o (some local) =
      record_latency_with_labels meter name duration [] (record o { local = local })

  unfoldable pub record_latency :
      (Text → Option ℕ) → Text → Int64 → OtelMetrics F → Option (OtelMetrics F)
  unfolding record_latency_with_labels
  record_latency meter name duration o =
      record_again meter name duration o (Store.record_latency name duration o.local)
