-- ===== src/Facade/Soundness.antt =====
-- observability/observability.go: the metrics behind the facade, valid or not.
use mathlib.Core.Option
use orkai_observability.Otel
use orkai_observability.Metrics.Store
use orkai_observability.Facade.{
  Instance, Metering, Moment, bridged, count_all, gauge_all, in_memory, inc_counter,
  inc_counter_with_labels, record_latency, record_latency_with_labels, set_gauge,
  set_gauge_with_labels, with_exporter,
}
use orkai_observability.Facade.Calls.{local_of}
use orkai_observability.Float64.{Float64}
use orkai_observability.Metrics.Key.{format_metric_key}
use orkai_observability.Metrics.Store.{milliseconds}
use orkai_observability.Metrics.Store.Validity.{IsValid, record_latency-IsValid}
use orkai_observability.Otel.{OtelMetrics, instrument, measure, record_again, record_measured}
use orkai_observability.Otlp.{OtlpExporter}
use orkai_observability.Prelude.{List, Option, [], ap, none, some, ℕ, ◌∙◌, ◌∷◌, ◌≡◌}
use orkai_observability.Prelude.Int64.{Int64}
use orkai_observability.Table.{Table, lookup}
use orkai_observability.Text.{Text}

module _ {F : Type 0} where
  -- The metrics behind the facade are valid, if there is an instance.
  abbrev pub IsSound : Metering F → Type 0
  IsSound s = IsValid (local_of s)

  abbrev pub Holds : Option (Instance F) → Type 0
  Holds none = Unit
  Holds (some inst) = IsSound inst.metrics

  -- An operation of the metrics that may panic.
  abbrev pub Keeps : (Metering F → Option (Metering F)) → Type 0
  Keeps op = (s : Metering F) → IsSound s → (s' : Metering F) × (op s ≡ some s') × IsSound s'

module _ {F : Type 0} ⦃f : Float64 F⦄ (m : Moment F) where
  pub inc_counter-IsSound :
      (name : Text) (s : Metering F) → IsSound s → IsSound (inc_counter m name s)
  unfolding inc_counter Store.inc_counter Otel.inc_counter
  inc_counter-IsSound name (in_memory s) h = record { sized = h.sized }
  inc_counter-IsSound name (bridged o) h = record { sized = h.sized }

  pub inc_counter_with_labels-IsSound :
      (name : Text) (labels : Table Text) (s : Metering F)
      → IsSound s
      → IsSound (inc_counter_with_labels m name labels s)
  unfolding inc_counter_with_labels Store.inc_counter_with_labels Otel.inc_counter_with_labels
  inc_counter_with_labels-IsSound name labels (in_memory s) h = record { sized = h.sized }
  inc_counter_with_labels-IsSound name labels (bridged o) h = record { sized = h.sized }

  pub set_gauge-IsSound :
      (name : Text) (v : F) (s : Metering F) → IsSound s → IsSound (set_gauge m name v s)
  unfolding set_gauge Store.set_gauge Otel.set_gauge
  set_gauge-IsSound name v (in_memory s) h = record { sized = h.sized }
  set_gauge-IsSound name v (bridged o) h = record { sized = h.sized }

  pub set_gauge_with_labels-IsSound :
      (name : Text) (v : F) (labels : Table Text) (s : Metering F)
      → IsSound s
      → IsSound (set_gauge_with_labels m name v labels s)
  unfolding set_gauge_with_labels Store.set_gauge_with_labels Otel.set_gauge_with_labels
  set_gauge_with_labels-IsSound name v labels (in_memory s) h = record { sized = h.sized }
  set_gauge_with_labels-IsSound name v labels (bridged o) h = record { sized = h.sized }

  pub count_all-IsSound :
      (names : List Text) (s : Metering F) → IsSound s → IsSound (count_all m names s)
  unfolding count_all
  count_all-IsSound [] s h = h
  count_all-IsSound (name ∷ names) s h =
      count_all-IsSound names (inc_counter m name s) (inc_counter-IsSound name s h)

  pub gauge_all-IsSound :
      (ratios : List (ℕ × ℕ)) (s : Metering F) → IsSound s → IsSound (gauge_all m ratios s)
  unfolding gauge_all
  gauge_all-IsSound [] s h = h
  gauge_all-IsSound ((len, cap') ∷ ratios) s h =
      gauge_all-IsSound ratios _ (set_gauge-IsSound _ _ s h)

  pub with_exporter-IsSound :
      (op : OtlpExporter → OtlpExporter) (e : Option OtlpExporter) (s : Metering F)
      → IsSound s
      → IsSound (with_exporter m op e s).1
  with_exporter-IsSound op none s h = h
  with_exporter-IsSound op (some e) s h = count_all-IsSound _ s h

  bridge_labels-IsValid :
      (meter : Text → Option ℕ) (name : Text) (d : Int64) (labels : Table Text) (o : OtelMetrics F)
      → IsValid o.local
      → (o' : OtelMetrics F) × (Otel.record_latency_with_labels meter name d labels o ≡ some o')
        × IsValid o'.local
  unfolding Otel.record_latency_with_labels Store.record_latency_with_labels
  bridge_labels-IsValid meter name d labels o h =
      let (s', e, h') = record_latency-IsValid (format_metric_key name labels) d o.local h in
      let (i, histograms) = instrument meter name o.histograms (lookup name o.histograms) in
      (
        record o {
          local = s';
          histograms = histograms;
          sent = measure i (f.of_int (milliseconds d)) labels o.sent;
        },
        ap (record_measured meter name d labels o) e,
        h',
      )

  bridge-IsValid :
      (meter : Text → Option ℕ) (name : Text) (d : Int64) (o : OtelMetrics F)
      → IsValid o.local
      → (o' : OtelMetrics F) × (Otel.record_latency meter name d o ≡ some o') × IsValid o'.local
  unfolding Otel.record_latency
  bridge-IsValid meter name d o h =
      let (s', e, h') = record_latency-IsValid name d o.local h in
      let (o2, e2, h2) = bridge_labels-IsValid meter name d [] (record o { local = s' }) h' in
      (o2, ap (record_again meter name d o) e ∙ e2, h2)

  pub record_latency-Keeps : (name : Text) (d : Int64) → Keeps (record_latency m name d)
  unfolding record_latency
  record_latency-Keeps name d (in_memory s) h =
      let (s', e, h') = record_latency-IsValid name d s h in
      (in_memory s', ap (Option.map in_memory) e, h')
  record_latency-Keeps name d (bridged o) h =
      let (o', e, h') = bridge-IsValid m.histogram_meter name d o h in
      (bridged o', ap (Option.map bridged) e, h')

  pub record_latency_with_labels-Keeps :
      (name : Text) (d : Int64) (labels : Table Text)
      → Keeps (record_latency_with_labels m name d labels)
  unfolding record_latency_with_labels Store.record_latency_with_labels
  record_latency_with_labels-Keeps name d labels (in_memory s) h =
      let (s', e, h') = record_latency-IsValid (format_metric_key name labels) d s h in
      (in_memory s', ap (Option.map in_memory) e, h')
  record_latency_with_labels-Keeps name d labels (bridged o) h =
      let (o', e, h') = bridge_labels-IsValid m.histogram_meter name d labels o h in
      (bridged o', ap (Option.map bridged) e, h')
