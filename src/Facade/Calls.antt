-- ===== src/Facade/Calls.antt =====
-- observability/observability.go: the functions of the package that forward to the global instance.
use mathlib.Core.Option
use orkai_observability.Otel
use orkai_observability.Tracer
use orkai_observability.Metrics.Store
use orkai_observability.Context.{Context}
use orkai_observability.Facade.{
  Facade, Instance, Metering, Moment, Tracing, ambient_of, bridged, export_spans, in_memory,
  inc_counter, inc_counter_with_labels, local, record_latency, record_latency_with_labels,
  set_gauge, set_gauge_with_labels, spanned, with_exporter, with_logger, with_metrics, on_instance,
}
use orkai_observability.Float64.{Float64}
use orkai_observability.Logger.Delivery.{JsonLogger, level_error, set_level}
use orkai_observability.Logger.Entries.{Method, log}
use orkai_observability.Metrics.Store.{InMemoryMetrics, MetricsSummary}
use orkai_observability.Otlp.{OtlpExporter}
use orkai_observability.Prelude.{Bool, List, Option, [], false, ltb, none, not, some, true, ◌≡◌}
use orkai_observability.Prelude.Int64.{Int64}
use orkai_observability.Table.{Table, or_zero}
use orkai_observability.Text.{Text}
use orkai_observability.Tracer.{Tracer}
use orkai_observability.Types.{Field, Span, empty_span}

-- The spans that the local tracer hands to the exporter, if there is one.
abbrev pub no_spans : Option OtlpExporter → Option (List (Span × Int64))
no_spans none = none
no_spans (some e) = some []

-- Whether the tracer is a `LocalTracer`.
abbrev local_tracing : Tracing → Bool
local_tracing (local t) = true
local_tracing (spanned o) = false

module _ {F : Type 0} where
  -- An operation of the metrics that may panic.
  abbrev pub store_metrics : Instance F → Facade F → Option (Metering F) → Option (Facade F)
  store_metrics inst g none = none
  store_metrics inst g (some s) =
      some (record g { instance_of = some (record inst { metrics = s }) })

  abbrev pub latency_on :
      (Metering F → Option (Metering F)) → Facade F → Option (Instance F) → Option (Facade F)
  latency_on op g none = some g
  latency_on op g (some inst) = store_metrics inst g (op inst.metrics)

  abbrev pub with_latency : (Metering F → Option (Metering F)) → Facade F → Option (Facade F)
  with_latency op g = latency_on op g g.instance_of

  -- `Print` and `GetSummary` of the metrics; those of the bridge are those of its local metrics.
  abbrev pub local_of : Metering F → InMemoryMetrics F
  local_of (in_memory s) = s
  local_of (bridged o) = o.local

  abbrev pub put_local : InMemoryMetrics F → Metering F → Metering F
  put_local s (in_memory s') = in_memory s
  put_local s (bridged o) = bridged (record o { local = s })

  abbrev pub empty_summary : MetricsSummary F
  empty_summary = record {
    counters = [];
    latencies = [];
    percentiles = [];
    histograms = [];
    gauges = [];
  }

  unfoldable pub set_logger : JsonLogger F → Facade F → Facade F
  set_logger l g =
      on_instance (λ inst. record g { instance_of = some (record inst { logger = l }) }) g
        g.instance_of

module _ {F : Type 0} ⦃f : Float64 F⦄ where
  unfoldable pub get_summary : Facade F → MetricsSummary F
  unfolding Store.get_summary
  get_summary g = elim g.instance_of [
    | none ↦ empty_summary
    | some inst ↦ Store.get_summary (local_of inst.metrics)
  ]

  abbrev pub unless : Bool → Facade F → Option (Facade F)
  unless true g = none
  unless false g = some g

  pub unless_done : (b : Bool) (g g' : Facade F) → unless b g ≡ some g' → some g ≡ some g'
  unless_done true g g' e = absurd (cc e)
  unless_done false g g' e = e

  abbrev traces_locally : Option (Instance F) → Bool
  traces_locally none = false
  traces_locally (some inst) = local_tracing inst.tracer

  abbrev logs_errors : Option (Instance F) → Bool
  logs_errors none = false
  logs_errors (some inst) = not (ltb level_error inst.logger.level)

  -- `Error` and `ErrorContext` of a nil error, with a logger that lets errors through or not.
  unfoldable pub log_nil_error : Facade F → Option (Facade F)
  log_nil_error g = unless (logs_errors g.instance_of) g

module _ {F : Type 0} ⦃f : Float64 F⦄ (m : Moment F) where
  unfoldable pub set_log_level : Text → Facade F → Facade F
  unfolding set_level
  set_log_level level_str g = with_logger m (set_level level_str) g

  -- Info, Debug, Warn, Error and their forms with a context.
  unfoldable pub log_entry : Method → Text → List Field → Facade F → Facade F
  unfolding log
  log_entry method msg fields g = with_logger m (log (ambient_of m g) method msg fields) g

  unfoldable pub counter : Text → Facade F → Facade F
  unfolding inc_counter
  counter name g = with_metrics (inc_counter m name) g

  unfoldable pub counter_with_labels : Text → Table Text → Facade F → Facade F
  unfolding inc_counter_with_labels
  counter_with_labels name labels g = with_metrics (inc_counter_with_labels m name labels) g

  unfoldable pub gauge : Text → F → Facade F → Facade F
  unfolding set_gauge
  gauge name value g = with_metrics (set_gauge m name value) g

  unfoldable pub gauge_with_labels : Text → F → Table Text → Facade F → Facade F
  unfolding set_gauge_with_labels
  gauge_with_labels name value labels g = with_metrics (set_gauge_with_labels m name value labels) g

  unfoldable pub latency : Text → Int64 → Facade F → Option (Facade F)
  unfolding record_latency
  latency name d g = with_latency (record_latency m name d) g

  unfoldable pub latency_with_labels : Text → Int64 → Table Text → Facade F → Option (Facade F)
  unfolding record_latency_with_labels
  latency_with_labels name d labels g = with_latency (record_latency_with_labels m name d labels) g

  -- `StartTrace` of the tracer of the instance, on the global stack.
  abbrev pub start_on :
      Context → Text → Instance F → Facade F → Tracing → (Context × Span) × Facade F
  start_on ctx name inst g (local t) =
      let (r, t') =
        Tracer.start_trace m.random m.ambient.now ctx name
          (record t { trace_stack = g.trace_stack }) in
      (
        r,
        record g {
          trace_stack = t'.trace_stack;
          instance_of = some (record inst { tracer = local t' });
        },
      )
  start_on ctx name inst g (spanned o) =
      let (r, o') =
        Otel.start_trace (m.otel_context ctx) m.otel_trace_id m.otel_span m.ambient.now name
          (record o { trace_stack = g.trace_stack }) in
      (
        r,
        record g {
          trace_stack = o'.trace_stack;
          instance_of = some (record inst { tracer = spanned o' });
        },
      )

  abbrev pub start_with :
      Context → Text → Facade F → Option (Instance F) → (Context × Span) × Facade F
  start_with ctx name g none = ((ctx, empty_span), g)
  start_with ctx name g (some inst) = start_on ctx name inst g inst.tracer

  unfoldable pub start_span : Context → Text → Facade F → (Context × Span) × Facade F
  unfolding Tracer.start_trace Otel.start_trace
  start_span ctx name g = start_with ctx name g g.instance_of

  -- `StartSpan` of a nil context: `context.WithValue` of the local tracer panics, and the SDK, which
  -- takes another context instead, does not.
  unfoldable pub start_span_nil : Context → Text → Facade F → Option (Facade F)
  unfolding start_span
  start_span_nil instead name g =
      unless (traces_locally g.instance_of) (start_span instead name g).1

  abbrev pub end_on : Span → Instance F → Facade F → Tracing → Facade F
  end_on span inst g (local t) =
      let t' =
        Tracer.end_trace m.show_duration m.ambient.now span
          (record t { trace_stack = g.trace_stack; exporter = no_spans g.exporter }) in
      let (e, s) =
        with_exporter m (export_spans (or_zero [] t'.exporter)) g.exporter inst.metrics in
      record g {
        trace_stack = t'.trace_stack;
        exporter = e;
        instance_of =
            some (record inst { tracer = local (record t' { exporter = none }); metrics = s });
      }
  end_on span inst g (spanned o) =
      let o' = Otel.end_trace span (record o { trace_stack = g.trace_stack }) in
      record g {
        trace_stack = o'.trace_stack;
        instance_of = some (record inst { tracer = spanned o' });
      }

  unfoldable pub end_span : Span → Facade F → Facade F
  unfolding Tracer.end_trace Otel.end_trace
  end_span span g = on_instance (λ inst. end_on span inst g inst.tracer) g g.instance_of

  -- `show_float` is `strconv.FormatFloat`.
  unfoldable pub dump : (F → Text) → Facade F → Option (Facade F)
  unfolding Store.print
  dump show_float g =
      with_latency
        (λ s.
          Option.map (λ printed. put_local printed s)
            (Store.print m.show_duration show_float (local_of s)))
        g
