-- ===== src/Facade.antt =====
-- observability/observability.go: the global instance and the globals beside it as one state, and what
-- a call to a component does to them. A component records its calls of `Counter`, `Gauge`, `ExportLog`
-- and `ExportSpan`; here they reach the metrics and the exporter.
pub mod Calls
pub mod Lifecycle
pub mod Background
pub mod Schedule
pub mod Soundness
pub mod Frame
pub mod Exported
pub mod Counting
pub mod Sample
mod Tests
use mathlib.Core.Option
use orkai_observability.Metrics.Store
use orkai_observability.Otel
use orkai_observability.Config.{Config}
use orkai_observability.Context.{Context}
use orkai_observability.Float64.{Float64}
use orkai_observability.Logger.Delivery.{JsonLogger}
use orkai_observability.Logger.Entries.{Ambient}
use orkai_observability.Metrics.Store.{InMemoryMetrics}
use orkai_observability.Otel.{OtelMetrics, OtelTracer}
use orkai_observability.Otlp.{OtlpExporter, export_log, export_span}
use orkai_observability.Prelude.{Bool, List, Option, [], none, some, ℕ, ◌∷◌}
use orkai_observability.Prelude.Int64.{Int64}
use orkai_observability.Profiler.{AutoProfiler}
use orkai_observability.Table.{Table, or_zero}
use orkai_observability.Text.{Text, codes}
use orkai_observability.Tracer.{Tracer}
use orkai_observability.Types.{Span}

-- The interface `Metrics`, with its two implementations.
pub data Metering (F : Type 0) : Type 0 where
  in_memory : InMemoryMetrics F → Metering F
  bridged : OtelMetrics F → Metering F

-- The interface `Tracer`, with its two implementations.
pub data Tracing : Type 0 where
  local : Tracer → Tracing
  spanned : OtelTracer → Tracing

-- `GlobalFacade`. A logger that a program sets itself is a `JSONLogger` here.
pub record Instance (F : Type 0) : Type 0 where
  pub logger : JsonLogger F
  pub metrics : Metering F
  pub tracer : Tracing
  pub config : Config F

pub record Facade (F : Type 0) : Type 0 where
  -- `globalInstance`
  pub instance_of : Option (Instance F)
  -- `globalExporter`
  pub exporter : Option OtlpExporter
  -- `globalProfiler`
  pub profiler : Option AutoProfiler
  -- `cancelSystemTelemetry`: whether the loop that it ends still runs; `none` is nil
  pub cancel : Option Bool
  -- the intervals of the running loops, the newest first
  pub loops : List Int64
  -- `traceStack`
  pub trace_stack : List Text

-- What a call reads outside the program: see `Ambient`, and the random bytes, the format of a
-- duration, the meters of the SDK, and what its `Start` gives.
pub record Moment (F : Type 0) : Type 0 where
  pub ambient : Ambient F
  pub random : List ℕ
  pub show_duration : Int64 → Text
  pub counter_meter : Text → Option ℕ
  pub histogram_meter : Text → Option ℕ
  pub gauge_meter : Text → Option ℕ
  pub otel_context : Context → Context
  pub otel_trace_id : Text
  pub otel_span : ℕ

abbrev pub empty_facade : {F : Type 0} → Facade F
empty_facade = record {
  instance_of = none;
  exporter = none;
  profiler = none;
  cancel = none;
  loops = [];
  trace_stack = [];
}

abbrev pub export_logs : List Text → OtlpExporter → OtlpExporter
export_logs [] e = e
export_logs (line ∷ lines) e = export_logs lines (export_log line e)

abbrev pub export_spans : List (Span × Int64) → OtlpExporter → OtlpExporter
export_spans [] e = e
export_spans ((span, d) ∷ spans) e = export_spans spans (export_span span d e)

module _ {F : Type 0} where
  -- The logger with nothing recorded yet; it exports if there is an exporter.
  abbrev pub recording : Option OtlpExporter → JsonLogger F → JsonLogger F
  recording none l = record l { counted = []; saturation = []; exported = none }
  recording (some e) l = record l { counted = []; saturation = []; exported = some [] }

  -- if inst := getGlobal(); inst != nil { … }
  abbrev pub on_instance : (Instance F → Facade F) → Facade F → Option (Instance F) → Facade F
  on_instance op g none = g
  on_instance op g (some inst) = op inst

  abbrev pub with_metrics : (Metering F → Metering F) → Facade F → Facade F
  with_metrics op g =
      on_instance
        (λ inst. record g { instance_of = some (record inst { metrics = op inst.metrics }) }) g
        g.instance_of

module _ {F : Type 0} ⦃f : Float64 F⦄ (m : Moment F) where
  unfoldable pub inc_counter : Text → Metering F → Metering F
  unfolding Store.inc_counter Otel.inc_counter
  inc_counter name (in_memory s) = in_memory (Store.inc_counter name s)
  inc_counter name (bridged o) = bridged (Otel.inc_counter m.counter_meter (f.of_int 1) name o)

  unfoldable pub inc_counter_with_labels : Text → Table Text → Metering F → Metering F
  unfolding Store.inc_counter_with_labels Otel.inc_counter_with_labels
  inc_counter_with_labels name labels (in_memory s) =
      in_memory (Store.inc_counter_with_labels name labels s)
  inc_counter_with_labels name labels (bridged o) =
      bridged (Otel.inc_counter_with_labels m.counter_meter (f.of_int 1) name labels o)

  unfoldable pub set_gauge : Text → F → Metering F → Metering F
  unfolding Store.set_gauge Otel.set_gauge
  set_gauge name value (in_memory s) = in_memory (Store.set_gauge name value s)
  set_gauge name value (bridged o) = bridged (Otel.set_gauge m.gauge_meter name value o)

  unfoldable pub set_gauge_with_labels : Text → F → Table Text → Metering F → Metering F
  unfolding Store.set_gauge_with_labels Otel.set_gauge_with_labels
  set_gauge_with_labels name value labels (in_memory s) =
      in_memory (Store.set_gauge_with_labels name value labels s)
  set_gauge_with_labels name value labels (bridged o) =
      bridged (Otel.set_gauge_with_labels m.gauge_meter name value labels o)

  unfoldable pub record_latency : Text → Int64 → Metering F → Option (Metering F)
  unfolding Store.record_latency Otel.record_latency
  record_latency name d (in_memory s) = Option.map in_memory (Store.record_latency name d s)
  record_latency name d (bridged o) =
      Option.map bridged (Otel.record_latency m.histogram_meter name d o)

  unfoldable pub record_latency_with_labels :
      Text → Int64 → Table Text → Metering F → Option (Metering F)
  unfolding Store.record_latency_with_labels Otel.record_latency_with_labels
  record_latency_with_labels name d labels (in_memory s) =
      Option.map in_memory (Store.record_latency_with_labels name d labels s)
  record_latency_with_labels name d labels (bridged o) =
      Option.map bridged (Otel.record_latency_with_labels m.histogram_meter name d labels o)

  -- The calls of `Counter` that were recorded.
  unfoldable pub count_all : List Text → Metering F → Metering F
  unfolding inc_counter
  count_all [] s = s
  count_all (name ∷ names) s = count_all names (inc_counter name s)

  -- The calls of `Gauge` with `len(asyncChan) / cap(asyncChan)`.
  unfoldable pub gauge_all : List (ℕ × ℕ) → Metering F → Metering F
  unfolding set_gauge
  gauge_all [] s = s
  gauge_all ((len, cap') ∷ ratios) s = gauge_all ratios (
      set_gauge (codes "observability_async_buffer_saturation_ratio")
        (f.over (f.of_int len) (f.of_int cap')) s)

  -- `op` on the exporter, whose calls of `Counter` reach the metrics.
  abbrev pub with_exporter :
      (OtlpExporter → OtlpExporter)
      → Option OtlpExporter
      → Metering F
      → Option OtlpExporter × Metering F
  with_exporter op none s = (none, s)
  with_exporter op (some e) s =
      let e' = op (record e { counted = [] }) in
      (some (record e' { counted = [] }), count_all e'.counted s)

  -- The effects of a call of the logger that ended in `l`.
  abbrev pub settle : JsonLogger F → Instance F → Facade F → Facade F
  settle l inst g =
      let (e, s) = with_exporter (export_logs (or_zero [] l.exported)) g.exporter inst.metrics in
      record g {
        exporter = e;
        instance_of = some (record inst {
          logger = recording none l;
          metrics = count_all l.counted (gauge_all l.saturation s);
        });
      }

  abbrev pub with_logger : (JsonLogger F → JsonLogger F) → Facade F → Facade F
  with_logger op g =
      on_instance (λ inst. settle (op (recording g.exporter inst.logger)) inst g) g g.instance_of

  -- What the logger reads, with the current stack of trace IDs.
  abbrev pub ambient_of : Facade F → Ambient F
  ambient_of g = record m.ambient { trace_stack = g.trace_stack }
